-- ===== src/Client/Bulk/Tests.antt =====
-- Runs of the visit of a group, by schedules of its threads.
use hsn_capture_hpc_ng.Base.{
  ℕ, zero, suc, ◌≡◌, ◌≢◌, true, false, refl, List, [], ◌∷◌, ◌++◌, Option, none, some, if◌then◌else◌,
  ltb, count, arith,
}
use hsn_capture_hpc_ng.Client.Visitor.{VisitEvent, visitation_multiple_errors}
use hsn_capture_hpc_ng.Client.Bulk.{
  Worker, new_workers, worker_step, idle, done, GroupVisit, start_group, worker_at, with_worker,
  count_over, step_at, group_step, by_group, by_worker, Reach, at_once, then_step, end_group,
}
use hsn_capture_hpc_ng.Client.Bulk.Invariant.{AreReady}
use hsn_capture_hpc_ng.Client.Bulk.Group.{visit_group-Ends}
use hsn_capture_hpc_ng.Client.Bulk.Lost.{visit_group-Endless}
use hsn_capture_hpc_ng.Client.Bulk.Errors.{end_group-first}

-- A step of visitGroup or of a worker, which is left out where it cannot be taken.
group_moved : GroupVisit → Option GroupVisit → GroupVisit
group_moved g none = g
group_moved g (some h) = h

worker_moved : ℕ → GroupVisit → Option (Worker × List ℕ) → GroupVisit
unfolding with_worker
worker_moved i g none = g
worker_moved i g (some (w, ks)) = record g {
  workers = with_worker i w g.workers;
  visited = ks ++ g.visited;
}

worker_at_moved : ℕ → GroupVisit → Option Worker → GroupVisit
unfolding worker_moved worker_step
worker_at_moved i g none = g
worker_at_moved i g (some w) = worker_moved i g (worker_step w)

-- A schedule: `none` is visitGroup's turn.
scheduled : List (Option ℕ) → GroupVisit → GroupVisit
unfolding group_moved group_step worker_at_moved worker_at
scheduled [] g = g
scheduled (none ∷ ms) g = scheduled ms (group_moved g (group_step g))
scheduled (some i ∷ ms) g = scheduled ms (worker_at_moved i g (worker_at i g.workers))

group_moved-Reach :
    (g0 g : GroupVisit) (o : Option GroupVisit)
    → group_step g ≡ o
    → Reach g0 g
    → Reach g0 (group_moved g o)
unfolding group_moved
group_moved-Reach g0 g none e r = r
group_moved-Reach g0 g (some h) e r = then_step g h r (by_group g h e)

worker_moved-Reach :
    (i : ℕ) (g0 g : GroupVisit) (w : Worker) (o : Option (Worker × List ℕ))
    → worker_at i g.workers ≡ some w
    → worker_step w ≡ o
    → Reach g0 g
    → Reach g0 (worker_moved i g o)
unfolding worker_moved
worker_moved-Reach i g0 g w none at e r = r
worker_moved-Reach i g0 g w (some (w', ks)) at e r = then_step g _ r (by_worker g i w w' ks at e)

worker_at_moved-Reach :
    (i : ℕ) (g0 g : GroupVisit) (o : Option Worker)
    → worker_at i g.workers ≡ o
    → Reach g0 g
    → Reach g0 (worker_at_moved i g o)
unfolding worker_at_moved
worker_at_moved-Reach i g0 g none at r = r
worker_at_moved-Reach i g0 g (some w) at r = worker_moved-Reach i g0 g w (worker_step w) at refl r

scheduled-Reach :
    (ms : List (Option ℕ)) (g0 g : GroupVisit) → Reach g0 g → Reach g0 (scheduled ms g)
unfolding scheduled
scheduled-Reach [] g0 g r = r
scheduled-Reach (none ∷ ms) g0 g r =
    scheduled-Reach ms g0 _ (group_moved-Reach g0 g (group_step g) refl r)
scheduled-Reach (some i ∷ ms) g0 g r =
    scheduled-Reach ms g0 _ (worker_at_moved-Reach i g0 g (worker_at i g.workers) refl r)

-- A new worker has nothing to do.
new_workers-AreReady : (n : ℕ) → AreReady (new_workers n)
unfolding new_workers
new_workers-AreReady zero = record { unmistaken = refl; inactive = refl; unfinished = refl }
new_workers-AreReady (suc n) =
    let others = new_workers-AreReady n in
    record {
      unmistaken = omega (arith, others.unmistaken);
      inactive = omega (arith, others.inactive);
      unfinished = omega (arith, others.unfinished);
    }

-- One worker visits one URL.
abbrev one_url : GroupVisit
one_url = start_group 1 (new_workers 1)

abbrev whole : List (Option ℕ)
whole = none ∷ none ∷ some 0 ∷ some 0 ∷ some 0 ∷ none ∷ none ∷ []

visited_once : (scheduled whole one_url).stage ≡ done
unfolding scheduled start_group new_workers
visited_once = refl

visit_group-Ends_example :
    ((k : ℕ) → count k (scheduled whole one_url).visited ≡ (if ltb k 1 then 1 else 0))
    × AreReady (scheduled whole one_url).workers
visit_group-Ends_example =
    visit_group-Ends 1 (new_workers 1) (scheduled whole one_url) (new_workers-AreReady 1)
      (scheduled-Reach whole one_url one_url at_once) visited_once

-- Two workers visit three URLs. The first has finished its visit, and before it signals that, the
-- second one's signal brings it another; then the wait returns the first.
abbrev three_urls : GroupVisit
three_urls = start_group 3 (new_workers 2)

abbrev late_signal : List (Option ℕ)
late_signal =
    none
    ∷ none
    ∷ none
    ∷ some 0
    ∷ some 0
    ∷ some 1
    ∷ some 1
    ∷ some 1
    ∷ none
    ∷ none
    ∷ none
    ∷ none
    ∷ none
    ∷ some 0
    ∷ none
    ∷ []

-- The first worker then.
abbrev busy_again : Worker
busy_again = record {
  busy = true;
  data_of = some 2;
  has_data = true;
  finished = false;
  activity = idle;
}

-- All three are visited in the end.
abbrev last_visit : List (Option ℕ)
last_visit = some 0 ∷ some 0 ∷ some 0 ∷ []

abbrev lost : GroupVisit
lost = count_over (scheduled late_signal three_urls) (some busy_again)

all_visited : (scheduled last_visit lost).visited ≡ 2 ∷ 1 ∷ 0 ∷ []
unfolding scheduled start_group new_workers
all_visited = refl

visit_group-Endless_example : (scheduled last_visit lost).stage ≢ done
unfolding scheduled start_group new_workers group_step step_at
visit_group-Endless_example =
    visit_group-Endless 3 0 (new_workers 2) (scheduled late_signal three_urls)
      (scheduled last_visit lost) busy_again (new_workers-AreReady 2)
      (scheduled-Reach late_signal three_urls three_urls at_once) refl refl refl lost refl
      (scheduled-Reach last_visit lost lost at_once)

-- The second of three URLs fails.
abbrev event : VisitEvent
event = record {
  urls = [];
  identifier = [];
  program = [];
  algorithm = [];
  url_group = true;
  malicious = false;
  error_code = 0;
}

end_group-first_example :
    (end_group (0 ∷ 0x10000110 ∷ 0 ∷ []) 0 event).error_code ≡ visitation_multiple_errors
end_group-first_example =
    end_group-first 1 0x10000110 (0 ∷ []) 0 event refl (λ e. absurd (omega arith))
