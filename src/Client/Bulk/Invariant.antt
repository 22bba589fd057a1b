-- ===== src/Client/Bulk/Invariant.antt =====
-- What holds between the steps of the visit of a group of URLs
-- (ApplicationPlugins/InternetExplorerBulk/Application_InternetExplorerBulk.cpp).
use hsn_capture_hpc_ng.Base.{
  ℕ, zero, suc, ◌+◌, ◌≤◌, ◌≡◌, refl, ap, ◌∙◌, List, [], ◌∷◌, ◌++◌, Bool, true, false, Option, none,
  some, if◌then◌else◌, ◌==◌, ltb, length, length-append, count, count-append, arith, Bool-cases,
  inl, inr,
}
use hsn_capture_hpc_ng.Client.Bulk.{
  Worker, Stage, scanning, waiting, done, GroupVisit, worker_at, with_worker, next_stage, given,
  offer, first_finished, count_visit, wait_over, count_over, returned,
}
use hsn_capture_hpc_ng.Client.Bulk.Workers.{
  total, total-with_worker, le-total, pending, active, holds, mistaken, Counts, Gains, given_lem,
}

-- Behind the loop all URLs are counted.
abbrev pub AllCounted : Stage → ℕ → ℕ → Type 0
AllCounted (scanning i) n_visited n_urls = Unit {0}
AllCounted waiting n_visited n_urls = Unit {0}
AllCounted done n_visited n_urls = n_urls ≤ n_visited
AllCounted (returned o) n_visited n_urls = Unit {0}

-- The signal that visitGroup has taken and has still to count.
abbrev pub taken : Stage → ℕ
taken (scanning i) = 0
taken waiting = 0
taken done = 0
taken (returned none) = 0
taken (returned (some i)) = 1

-- Each URL that was handed out is visited, or held by one worker.
pub record IsValid (g : GroupVisit) : Type 0 where
  pub mistakes : total mistaken g.workers ≡ 0
  pub handed : g.to_visit ≡ g.n_visiting
  pub within : g.n_visiting ≤ g.n_urls
  pub actives : length g.visited + total active g.workers ≡ g.n_visiting
  pub counted : g.n_visited_urls + total pending g.workers + taken g.stage ≤ length g.visited
  pub urls :
      (k : ℕ)
      → count k g.visited + total (holds k) g.workers ≡ (if ltb k g.n_visiting then 1 else 0)
  pub ended : AllCounted g.stage g.n_visited_urls g.n_urls

-- The workers before a group: none has anything to do.
pub record AreReady (ws : List Worker) : Type 0 where
  pub unmistaken : total mistaken ws ≡ 0
  pub inactive : total active ws ≡ 0
  pub unfinished : total pending ws ≡ 0

pub worker-mistakes :
    (i : ℕ) (w : Worker) (ws : List Worker)
    → worker_at i ws ≡ some w
    → total mistaken ws ≡ 0
    → mistaken w ≡ 0
worker-mistakes i w ws at h = omega (arith, le-total mistaken i w ws at)

pub by_worker-IsValid :
    (g : GroupVisit) (i : ℕ) (w w' : Worker) (ks : List ℕ)
    → IsValid g
    → worker_at i g.workers ≡ some w
    → Counts w w' ks
    → IsValid (record g { workers = with_worker i w' g.workers; visited = ks ++ g.visited })
by_worker-IsValid g i w w' ks v at c = record {
  mistakes = omega (arith, v.mistakes, c.mistakes, total-with_worker mistaken i w w' g.workers at);
  handed = v.handed;
  within = v.within;
  actives = omega (
    arith,
    v.actives,
    c.actives,
    total-with_worker active i w w' g.workers at,
    length-append ks g.visited,
  );
  counted = omega (
    arith,
    v.counted,
    c.pendings,
    total-with_worker pending i w w' g.workers at,
    length-append ks g.visited,
  );
  urls = λ k.
      let moved : count k (ks ++ g.visited) + total (holds k) (with_worker i w' g.workers)
          ≡ count k g.visited + total (holds k) g.workers =
        omega (
          arith,
          c.urls k,
          total-with_worker (holds k) i w w' g.workers at,
          count-append k ks g.visited,
        ) in
      moved ∙ v.urls k;
  ended = v.ended;
}

abbrev index : Bool → ℕ
index b = if b then 1 else 0

handed_out :
    (k n : ℕ)
    → (if ltb k n then 1 else 0) + (if k == n then 1 else 0) ≡ (if ltb k (n + 1) then 1 else 0)
handed_out k n = ground arith

given-IsValid :
    (g : GroupVisit) (i : ℕ) (w : Worker)
    → IsValid g
    → worker_at i g.workers ≡ some w
    → Gains g.to_visit w
    → suc g.n_visiting ≤ g.n_urls
    → IsValid (record g {
      to_visit = g.to_visit + 1;
      n_visiting = g.n_visiting + 1;
      stage = scanning (i + 1);
      workers = with_worker i (given g.to_visit w) g.workers;
    })
given-IsValid g i w v at c room =
    let w' = given g.to_visit w in
    record {
      mistakes =
          omega (arith, v.mistakes, c.mistakes, total-with_worker mistaken i w w' g.workers at);
      handed = ap (λ (n : ℕ). n + 1) v.handed;
      within = omega (arith, room);
      actives = omega (arith, v.actives, c.actives, total-with_worker active i w w' g.workers at);
      counted = omega (arith, v.counted, c.pendings, total-with_worker pending i w w' g.workers at);
      urls = λ k.
          let own : index (k == g.to_visit) ≡ index (k == g.n_visiting) =
            ap (λ (n : ℕ). index (k == n)) v.handed in
          let gained : count k g.visited + total (holds k) (with_worker i w' g.workers)
              ≡ (if ltb k g.n_visiting then 1 else 0) + (if k == g.n_visiting then 1 else 0) =
            omega
              (arith, v.urls k, own, c.urls k, total-with_worker (holds k) i w w' g.workers at) in
          gained ∙ handed_out k g.n_visiting;
      ended = tt;
    }

pub at_stage :
    (g : GroupVisit) (s : Stage)
    → IsValid g
    → taken s ≡ 0
    → AllCounted s g.n_visited_urls g.n_urls
    → IsValid (record g { stage = s })
at_stage g s v t h = record {
  mistakes = v.mistakes;
  handed = v.handed;
  within = v.within;
  actives = v.actives;
  counted = omega (arith, v.counted, t);
  urls = v.urls;
  ended = h;
}

pub offer-IsValid :
    (i : ℕ) (g : GroupVisit) (o : Option Worker)
    → worker_at i g.workers ≡ o
    → IsValid g
    → IsValid (offer i g o)
unfolding offer
offer-IsValid i g none at v = at_stage g waiting v refl tt
offer-IsValid i g (some w) at v = elim (Bool-cases w.busy) [
  | inl busy ↦ rw busy (at_stage g (scanning (i + 1)) v refl tt)
  | inr free ↦ elim (Bool-cases (ltb g.n_visiting g.n_urls)) [
    | inr none_left ↦ rw (free, none_left) (at_stage g (scanning (i + 1)) v refl tt)
    | inl left ↦
        rw (free, left)
          (given-IsValid g i w v at
            (given_lem g.to_visit w free (worker-mistakes i w g.workers at v.mistakes))
            (ground arith))
  ]
]

pub next_stage-AllCounted :
    (n_visited n_urls : ℕ) → AllCounted (next_stage n_visited n_urls) n_visited n_urls
unfolding next_stage
next_stage-AllCounted n_visited n_urls = elim (Bool-cases (ltb n_visited n_urls)) [
  | inl less ↦ rw less tt
  | inr enough ↦ rw enough (ground arith)
]

-- What a worker has finished is pending until it is reset.
pub reset_lem :
    (w : Worker) → w.finished ≡ true → pending (record w { finished = false }) + 1 ≡ pending w
reset_lem w h = rw h (omega arith)

pub count_visit-le : (g : GroupVisit) (w : Worker) → count_visit g (some w) ≤ g.n_visited_urls + 1
unfolding count_visit
count_visit-le g w = ground arith

pub next_stage-taken : (n_visited n_urls : ℕ) → taken (next_stage n_visited n_urls) ≡ 0
unfolding next_stage
next_stage-taken n_visited n_urls = elim (Bool-cases (ltb n_visited n_urls)) [
  | inl less ↦ rw less refl
  | inr enough ↦ rw enough refl
]

pub wait_over-IsValid :
    (i : ℕ) (g : GroupVisit) (w : Worker)
    → worker_at i g.workers ≡ some w
    → w.finished ≡ true
    → g.stage ≡ waiting
    → IsValid g
    → IsValid (wait_over i g (some w))
unfolding wait_over
wait_over-IsValid i g w at h s v =
    let w' : Worker = record w { finished = false } in
    record {
      mistakes = omega (arith, v.mistakes, total-with_worker mistaken i w w' g.workers at);
      handed = v.handed;
      within = v.within;
      actives = omega (arith, v.actives, total-with_worker active i w w' g.workers at);
      counted =
          omega (arith, v.counted, reset_lem w h, total-with_worker pending i w w' g.workers at);
      urls = λ k.
          let same : count k g.visited + total (holds k) (with_worker i w' g.workers)
              ≡ count k g.visited + total (holds k) g.workers =
            omega (arith, total-with_worker (holds k) i w w' g.workers at) in
          same ∙ v.urls k;
      ended = tt;
    }

pub count_over-IsValid :
    (g : GroupVisit) (o : Option Worker)
    → IsValid g
    → count_visit g o ≤ g.n_visited_urls + taken g.stage
    → IsValid (count_over g o)
unfolding count_over
count_over-IsValid g o v h = record {
  mistakes = v.mistakes;
  handed = v.handed;
  within = v.within;
  actives = v.actives;
  counted = omega (arith, v.counted, h, next_stage-taken (count_visit g o) g.n_urls);
  urls = v.urls;
  ended = next_stage-AllCounted (count_visit g o) g.n_urls;
}

first_finished-ge : (j i : ℕ) (ws : List Worker) → first_finished j ws ≡ some i → j ≤ i
unfolding first_finished
first_finished-ge j i [] h = absurd (ground arith)
first_finished-ge j i (w ∷ ws) h = ground (arith, first_finished-ge (j + 1) i ws)

-- The worker that the wait has found.
pub first_finished-at :
    (j d i : ℕ) (w : Worker) (ws : List Worker)
    → first_finished j ws ≡ some i
    → i ≡ j + d
    → worker_at d ws ≡ some w
    → w.finished ≡ true
unfolding first_finished worker_at
first_finished-at j d i w [] h e at = absurd (ground arith)
first_finished-at j zero i w (v ∷ ws) h e at =
    let same : v.finished ≡ w.finished =
      ap (λ (o : Option Worker). elim o [ none ↦ true | some x ↦ x.finished ]) at in
    ground (arith, first_finished-ge (j + 1) i ws)
first_finished-at j (suc d) i w (v ∷ ws) h e at =
    let later = first_finished-at (j + 1) d i w ws in ground arith
