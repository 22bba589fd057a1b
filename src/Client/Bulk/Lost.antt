-- ===== src/Client/Bulk/Lost.antt =====
-- Where a worker's signal is not counted
-- (ApplicationPlugins/InternetExplorerBulk/Application_InternetExplorerBulk.cpp).
use hsn_capture_hpc_ng.Base.{
  ℕ, suc, ◌+◌, ◌≤◌, ◌≡◌, ◌≢◌, refl, sym, ap, ◌∙◌, subst, List, true, false, Option, none, some,
  length, length-append, arith, not, ◌&&◌, ltb, Bool-cases, inl, inr,
}
use hsn_capture_hpc_ng.Client.Bulk.{
  Worker, Stage, waiting, done, GroupVisit, worker_at, start_group, given, offer, count_visit,
  wait_over, count_over, returned, group_step, step_at, Step, by_group, by_worker, Reach, at_once,
  then_step,
}
use hsn_capture_hpc_ng.Client.Bulk.Workers.{total, total-with_worker, pending, worker_step_lem}
use hsn_capture_hpc_ng.Client.Bulk.Invariant.{
  AllCounted, IsValid, AreReady, worker-mistakes, count_over-IsValid, reset_lem, taken,
  next_stage-taken,
}
use hsn_capture_hpc_ng.Client.Bulk.Group.{
  KeptBy, one_counted, step_kept, Step-IsValid, Reach-IsValid, start_group-IsValid,
}

-- Fewer visits are counted, or will be, than were made.
abbrev HasLost : GroupVisit → Type 0
HasLost g = suc (g.n_visited_urls + total pending g.workers + taken g.stage) ≤ length g.visited

abbrev Losing : GroupVisit → Type 0
Losing g = IsValid g × HasLost g

offer-HasLost :
    (i : ℕ) (g : GroupVisit) (o : Option Worker)
    → worker_at i g.workers ≡ o
    → HasLost g
    → HasLost (offer i g o)
unfolding offer given
offer-HasLost i g none at l = omega (arith, l)
offer-HasLost i g (some w) at l = elim (Bool-cases (not w.busy && ltb g.n_visiting g.n_urls)) [
  | inr kept ↦ rw kept (omega (arith, l))
  | inl offered ↦
      rw offered (omega (arith, total-with_worker pending i w (given g.to_visit w) g.workers at))
]

wait_over-HasLost :
    (i : ℕ) (g : GroupVisit) (w : Worker)
    → worker_at i g.workers ≡ some w
    → w.finished ≡ true
    → g.stage ≡ waiting
    → HasLost g
    → HasLost (wait_over i g (some w))
unfolding wait_over
wait_over-HasLost i g w at h s l = omega (
  arith,
  reset_lem w h,
  total-with_worker pending i w (record w { finished = false }) g.workers at,
)

timeout-HasLost : (g : GroupVisit) → HasLost g → HasLost (record g { stage = returned none })
timeout-HasLost g l = omega (arith, l)

count_over-HasLost :
    (g : GroupVisit) (o : Option Worker)
    → count_visit g o ≤ g.n_visited_urls + taken g.stage
    → HasLost g
    → HasLost (count_over g o)
unfolding count_over
count_over-HasLost g o h l = omega (arith, l, h, next_stage-taken (count_visit g o) g.n_urls)

Step-Losing : (g h : GroupVisit) → Step g h → Losing g → Losing h
unfolding group_step
Step-Losing _ _ (by_group g h e) v = (
  Step-IsValid g h (by_group g h e) v.0,
  subst (KeptBy HasLost) e (
      step_kept HasLost offer-HasLost wait_over-HasLost timeout-HasLost count_over-HasLost g.stage g
        refl v.1),
)
Step-Losing _ _ (by_worker g i w w' ks at e) v =
    let c = worker_step_lem w w' ks e (worker-mistakes i w g.workers at v.0.mistakes) in
    (
      Step-IsValid g _ (by_worker g i w w' ks at e) v.0,
      omega (
        arith,
        c.pendings,
        v.1,
        total-with_worker pending i w w' g.workers at,
        length-append ks g.visited,
      ),
    )

Reach-Losing : (g h : GroupVisit) → Reach g h → Losing g → Losing h
Reach-Losing g h at_once v = v
Reach-Losing g _ (then_step h k r s) v = Step-Losing h k s (Reach-Losing g h r v)

Losing-goes_on : (g : GroupVisit) → Losing g → g.stage ≢ done
Losing-goes_on g (v, l) at_end =
    let last : g.n_urls ≤ g.n_visited_urls =
      subst (λ (s : Stage). AllCounted s g.n_visited_urls g.n_urls) at_end v.ended in
    absurd (omega (arith, v.within, v.actives, l, last))

count_visit-busy :
    (g : GroupVisit) (w : Worker) → w.busy ≡ true → count_visit g (some w) ≡ g.n_visited_urls
unfolding count_visit
count_visit-busy g w busy = rw busy refl

-- A worker that is busy when its flag is tested is not counted, and its signal is taken.
count_over-lost :
    (i : ℕ) (g : GroupVisit) (w : Worker)
    → g.stage ≡ returned (some i)
    → w.busy ≡ true
    → IsValid g
    → HasLost (count_over g (some w))
unfolding count_over
count_over-lost i g w s busy v =
    let one : taken g.stage ≡ 1 = ap taken s in
    omega (
      arith,
      v.counted,
      count_visit-busy g w busy,
      next_stage-taken (count_visit g (some w)) g.n_urls,
    )

-- Where visitGroup's wait has returned a worker, and that is busy with another URL by the time that its
-- flag is tested, visitGroup never leaves its loop, whatever the workers do: the visit is not counted.
pub visit_group-Endless :
    (n i : ℕ) (ws : List Worker) (g h : GroupVisit) (w : Worker)
    → AreReady ws
    → Reach (start_group n ws) g
    → g.stage ≡ returned (some i)
    → worker_at i g.workers ≡ some w
    → w.busy ≡ true
    → (g' : GroupVisit) → group_step g ≡ some g'
    → Reach g' h
    → h.stage ≢ done
unfolding start_group group_step step_at
visit_group-Endless n i ws g h w ready before s at busy g' step after =
    let v : IsValid g =
      (Reach-IsValid n (start_group n ws) g before (start_group-IsValid n ws ready) refl).0 in
    let kept : count_visit g (some w) ≤ g.n_visited_urls + taken g.stage =
      one_counted g i (some w) s in
    let next : Losing (count_over g (some w)) =
      (count_over-IsValid g (some w) v kept, count_over-lost i g w s busy v) in
    let same : some (count_over g (some w)) ≡ some g' =
      sym (ap (λ (t : Stage). step_at t g) s ∙ ap (λ (o : Option Worker). some (count_over g o)) at)
      ∙ step in
    Losing-goes_on h (Reach-Losing g' h after (subst (KeptBy Losing) same next))
