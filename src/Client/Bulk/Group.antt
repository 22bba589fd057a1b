-- ===== src/Client/Bulk/Group.antt =====
-- The visit of a group of URLs, in every interleaving of the workers' steps
-- (ApplicationPlugins/InternetExplorerBulk/Application_InternetExplorerBulk.cpp).
use hsn_capture_hpc_ng.Base.{
  ℕ, ◌≤◌, ◌≡◌, ◌+◌, refl, ap, subst, List, true, Option, none, some, if◌then◌else◌, ltb, count,
  arith,
}
use hsn_capture_hpc_ng.Client.Bulk.{
  Worker, Stage, scanning, waiting, done, GroupVisit, worker_at, start_group, offer, first_finished,
  count_visit, wait_over, count_over, returned, after_wait, step_at, group_step, Step, by_group,
  by_worker, Reach, at_once, then_step,
}
use hsn_capture_hpc_ng.Client.Bulk.Workers.{
  total, total-le, active, holds, worker_step_lem, holds-le,
}
use hsn_capture_hpc_ng.Client.Bulk.Invariant.{
  AllCounted, IsValid, AreReady, worker-mistakes, by_worker-IsValid, at_stage, offer-IsValid,
  next_stage-AllCounted, next_stage-taken, taken, count_visit-le, count_over-IsValid,
  wait_over-IsValid, first_finished-at,
}

-- A visit is counted only where a signal was taken.
nothing_counted : (g : GroupVisit) → count_visit g none ≤ g.n_visited_urls + taken g.stage
unfolding count_visit
nothing_counted g = omega arith

pub one_counted :
    (g : GroupVisit) (i : ℕ) (o : Option Worker)
    → g.stage ≡ returned (some i)
    → count_visit g o ≤ g.n_visited_urls + taken g.stage
unfolding count_visit
one_counted g i none s = omega arith
one_counted g i (some w) s =
    let one : taken g.stage ≡ 1 = ap taken s in omega (arith, count_visit-le g w)

-- What a step keeps.
abbrev pub KeptBy : (GroupVisit → Type 0) → Option GroupVisit → Type 0
KeptBy P none = Unit {0}
KeptBy P (some h) = P h

-- It is enough to look at the four kinds of steps of visitGroup.
module _ (P : GroupVisit → Type 0)
    (by_offer : (i : ℕ) (g : GroupVisit) (o : Option Worker)
      → worker_at i g.workers ≡ o
      → P g
      → P (offer i g o))
    (by_wait : (i : ℕ) (g : GroupVisit) (w : Worker)
      → worker_at i g.workers ≡ some w
      → w.finished ≡ true
      → g.stage ≡ waiting
      → P g
      → P (wait_over i g (some w)))
    (by_timeout : (g : GroupVisit) → P g → P (record g { stage = returned none }))
    (by_count : (g : GroupVisit) (o : Option Worker)
      → count_visit g o ≤ g.n_visited_urls + taken g.stage
      → P g
      → P (count_over g o)) where
  returned_kept :
      (i : ℕ) (g : GroupVisit) (o : Option Worker)
      → worker_at i g.workers ≡ o
      → first_finished 0 g.workers ≡ some i
      → g.stage ≡ waiting
      → P g
      → P (wait_over i g o)
  unfolding wait_over
  returned_kept i g none at found s v = by_timeout g v
  returned_kept i g (some w) at found s v =
      by_wait i g w at (first_finished-at 0 i i w g.workers found (omega arith) at) s v

  wait_kept :
      (o : Option ℕ) (g : GroupVisit)
      → first_finished 0 g.workers ≡ o
      → g.stage ≡ waiting
      → P g
      → P (after_wait g o)
  unfolding after_wait
  wait_kept none g found s v = by_timeout g v
  wait_kept (some i) g found s v = returned_kept i g (worker_at i g.workers) refl found s v

  pub step_kept : (s : Stage) (g : GroupVisit) → g.stage ≡ s → P g → KeptBy P (step_at s g)
  unfolding step_at
  step_kept (scanning i) g s v = by_offer i g _ refl v
  step_kept done g s v = tt
  step_kept waiting g s v = wait_kept (first_finished 0 g.workers) g refl s v
  step_kept (returned none) g s v = by_count g none (nothing_counted g) v
  step_kept (returned (some i)) g s v =
      by_count g (worker_at i g.workers) (one_counted g i (worker_at i g.workers) s) v

timeout-IsValid : (g : GroupVisit) → IsValid g → IsValid (record g { stage = returned none })
timeout-IsValid g v = at_stage g (returned none) v refl tt

count_kept :
    (g : GroupVisit) (o : Option Worker)
    → count_visit g o ≤ g.n_visited_urls + taken g.stage
    → IsValid g
    → IsValid (count_over g o)
count_kept g o h v = count_over-IsValid g o v h

-- Any step keeps the invariant.
pub Step-IsValid : (g h : GroupVisit) → Step g h → IsValid g → IsValid h
unfolding group_step
Step-IsValid _ _ (by_group g h e) v =
    subst (KeptBy IsValid) e (
      step_kept IsValid offer-IsValid wait_over-IsValid timeout-IsValid count_kept g.stage g refl v)
Step-IsValid _ _ (by_worker g i w w' ks at e) v =
    by_worker-IsValid g i w w' ks v at
      (worker_step_lem w w' ks e (worker-mistakes i w g.workers at v.mistakes))

abbrev IsOf : ℕ → GroupVisit → Type 0
IsOf n g = g.n_urls ≡ n

offer-IsOf : (n i : ℕ) (g : GroupVisit) (o : Option Worker) → IsOf n g → IsOf n (offer i g o)
unfolding offer
offer-IsOf n i g none e = e
offer-IsOf n i g (some w) e = ground (arith, e)

pub Step-IsOf : (n : ℕ) (g h : GroupVisit) → Step g h → IsOf n g → IsOf n h
unfolding wait_over count_over group_step
Step-IsOf n _ _ (by_group g h e) v = subst (KeptBy (IsOf n)) e (
    step_kept (IsOf n) (λ i k o at. offer-IsOf n i k o) (λ i k w at f s p. p) (λ k p. p)
      (λ k o h p. p) g.stage g refl v)
Step-IsOf n _ _ (by_worker g i w w' ks at e) v = v

pub Reach-IsValid :
    (n : ℕ) (g h : GroupVisit) → Reach g h → IsValid g → IsOf n g → IsValid h × IsOf n h
Reach-IsValid n g h at_once v e = (v, e)
Reach-IsValid n g _ (then_step h k r s) v e =
    let before = Reach-IsValid n g h r v e in
    (Step-IsValid h k s before.0, Step-IsOf n h k s before.1)

pub start_group-IsValid : (n : ℕ) (ws : List Worker) → AreReady ws → IsValid (start_group n ws)
unfolding start_group
start_group-IsValid n ws r = record {
  mistakes = r.unmistaken;
  handed = refl;
  within = omega arith;
  actives = omega (arith, r.inactive);
  counted = omega (arith, r.unfinished, next_stage-taken 0 n);
  urls = λ k.
      let none_held = total-le (holds k) active ws (holds-le k) in
      let nothing : total (holds k) ws ≡ 0 = omega (arith, none_held, r.inactive) in
      ground (arith, nothing);
  ended = next_stage-AllCounted 0 n;
}

-- Where the workers have nothing to do at first, and visitGroup has left its loop over n URLs, each of them
-- was visited exactly once, and again no worker has anything to do or to signal: what visitGroup deletes
-- then is used no more, and the next group finds the workers as this one did.
pub visit_group-Ends :
    (n : ℕ) (ws : List Worker) (g : GroupVisit)
    → AreReady ws
    → Reach (start_group n ws) g
    → g.stage ≡ done
    → ((k : ℕ) → count k g.visited ≡ (if ltb k n then 1 else 0)) × AreReady g.workers
unfolding start_group
visit_group-Ends n ws g r reached at_end =
    let (v, e) = Reach-IsValid n (start_group n ws) g reached (start_group-IsValid n ws r) refl in
    let last : g.n_urls ≤ g.n_visited_urls =
      subst (λ (s : Stage). AllCounted s g.n_visited_urls g.n_urls) at_end v.ended in
    let all : g.n_visiting ≡ n = omega (arith, v.within, v.actives, v.counted, e, last) in
    (
      λ k.
          let held = total-le (holds k) active g.workers (holds-le k) in
          let each : count k g.visited ≡ (if ltb k g.n_visiting then 1 else 0) =
            omega (arith, held, v.urls k, v.within, v.actives, v.counted, last) in
          subst (λ (m : ℕ). count k g.visited ≡ (if ltb k m then 1 else 0)) all each,
      record {
        unmistaken = v.mistakes;
        inactive = omega (arith, v.within, v.actives, v.counted, last);
        unfinished = omega (arith, v.within, v.actives, v.counted, last);
      },
    )
