-- ===== src/Client/Bulk.antt =====
-- Application_InternetExplorerBulk::visitGroup and InternetExplorerWorker
-- (ApplicationPlugins/InternetExplorerBulk/Application_InternetExplorerBulk.cpp): the URLs of a group are
-- handed to worker threads. The thread of visitGroup and the workers share a flag, a pointer and two
-- auto-reset events for each worker, without a lock.
pub mod Workers
pub mod Invariant
pub mod Group
pub mod Lost
pub mod Errors
mod Tests
use hsn_capture_hpc_ng.Base.{
  ℕ, zero, suc, ◌+◌, ◌≡◌, List, [], ◌∷◌, ◌++◌, Bool, true, false, not, ◌&&◌, Option, none, some,
  if◌then◌else◌, ◌==◌, ltb,
}
use hsn_capture_hpc_ng.Client.Visitor.{VisitEvent, set_error_code, set_error_codes}

-- Where a worker stands: before its wait, within visitUrl, or before it signals that it has finished.
pub data Activity : Type 0 where
  idle finishing : Activity
  visiting : ℕ → Activity

-- worker_thread_busy, worker_thread_data (the place of the URL in visit_information), worker_has_data
-- and worker_finished of one worker.
pub record Worker : Type 0 where
  pub busy : Bool
  pub data_of : Option ℕ
  pub has_data : Bool
  pub finished : Bool
  pub activity : Activity

-- A worker as the constructor makes it.
abbrev pub new_worker : Worker
new_worker = record {
  busy = false;
  data_of = none;
  has_data = false;
  finished = false;
  activity = idle;
}

-- The constructor's loop; visitGroup runs with MAX_WORKER_THREADS of them, 60.
unfoldable pub new_workers : ℕ → List Worker
new_workers zero = []
new_workers (suc n) = new_worker ∷ new_workers n

-- worker_thread_data once the wait is over: the assertion that it is not NULL does nothing in a release.
pub activity_of : Option ℕ → Activity
activity_of none = idle
activity_of (some k) = visiting k

-- The next step of a worker, with the URL that it has visited; `none` while it waits.
unfoldable pub worker_step : Worker → Option (Worker × List ℕ)
unfolding activity_of
worker_step w = elim w.activity [
  | idle ↦
      if w.has_data
      then some (record w { has_data = false; activity = activity_of w.data_of }, [])
      else none
  | visiting k ↦ some (record w { busy = false; activity = finishing }, k ∷ [])
  | finishing ↦ some (record w { finished = true; activity = idle }, [])
]

-- Where visitGroup stands: at a worker in its loop over them, in WaitForMultipleObjects, between its
-- return, with a worker or at WAIT_TIMEOUT, and the test of that worker's flag, or behind its loop.
pub data Stage : Type 0 where
  scanning : ℕ → Stage
  waiting done : Stage
  returned : Option ℕ → Stage

-- The locals of visitGroup, with the URLs that were visited and the workers.
pub record GroupVisit : Type 0 where
  pub n_urls : ℕ
  pub to_visit : ℕ
  pub n_visiting : ℕ
  pub n_visited_urls : ℕ
  pub stage : Stage
  pub visited : List ℕ
  pub workers : List Worker

-- One of the workers, and the workers with another in its place.
unfoldable pub worker_at : ℕ → List Worker → Option Worker
worker_at i [] = none
worker_at zero (w ∷ ws) = some w
worker_at (suc i) (w ∷ ws) = worker_at i ws

unfoldable pub with_worker : ℕ → Worker → List Worker → List Worker
with_worker i w [] = []
with_worker zero w (v ∷ ws) = w ∷ ws
with_worker (suc i) w (v ∷ ws) = v ∷ with_worker i w ws

-- The test of the outer loop.
pub next_stage : ℕ → ℕ → Stage
next_stage n_visited n_urls = if ltb n_visited n_urls then scanning 0 else done

-- The start of visitGroup.
pub start_group : ℕ → List Worker → GroupVisit
unfolding next_stage
start_group n workers = record {
  n_urls = n;
  to_visit = 0;
  n_visiting = 0;
  n_visited_urls = 0;
  stage = next_stage 0 n;
  visited = [];
  workers = workers;
}

-- Something to do for a worker.
pub given : ℕ → Worker → Worker
given k w = record w { data_of = some k; busy = true; has_data = true }

-- The loop's body for one worker, and the end of the loop behind the last.
pub offer : ℕ → GroupVisit → Option Worker → GroupVisit
unfolding given with_worker
offer i g none = record g { stage = waiting }
offer i g (some w) =
    if not w.busy && ltb g.n_visiting g.n_urls
    then record g {
      to_visit = g.to_visit + 1;
      n_visiting = g.n_visiting + 1;
      stage = scanning (i + 1);
      workers = with_worker i (given g.to_visit w) g.workers;
    }
    else record g { stage = scanning (i + 1) }

-- WaitForMultipleObjects: the first worker that has finished, which it resets.
unfoldable pub first_finished : ℕ → List Worker → Option ℕ
first_finished i [] = none
first_finished i (w ∷ ws) =
    let later = first_finished (i + 1) ws in if w.finished then some i else later

-- What is counted by the flag of the worker that it returned. At WAIT_TIMEOUT the index is no worker's.
pub count_visit : GroupVisit → Option Worker → ℕ
count_visit g none = g.n_visited_urls
count_visit g (some w) = if w.busy then g.n_visited_urls else g.n_visited_urls + 1

-- The return of the wait: the event of the worker is reset.
pub wait_over : ℕ → GroupVisit → Option Worker → GroupVisit
unfolding with_worker
wait_over i g none = record g { stage = returned none }
wait_over i g (some w) = record g {
  stage = returned (some i);
  workers = with_worker i (record w { finished = false }) g.workers;
}

unfoldable pub after_wait : GroupVisit → Option ℕ → GroupVisit
unfolding worker_at wait_over
after_wait g none = record g { stage = returned none }
after_wait g (some i) = wait_over i g (worker_at i g.workers)

-- The test of the worker's flag, and that of the outer loop.
pub count_over : GroupVisit → Option Worker → GroupVisit
unfolding count_visit next_stage
count_over g w = record g {
  n_visited_urls = count_visit g w;
  stage = next_stage (count_visit g w) g.n_urls;
}

unfoldable pub step_at : Stage → GroupVisit → Option GroupVisit
unfolding offer worker_at first_finished after_wait count_over
step_at (scanning i) g = some (offer i g (worker_at i g.workers))
step_at waiting g = some (after_wait g (first_finished 0 g.workers))
step_at (returned none) g = some (count_over g none)
step_at (returned (some i)) g = some (count_over g (worker_at i g.workers))
step_at done g = none

-- The next step of visitGroup; `none` behind its loop.
unfoldable pub group_step : GroupVisit → Option GroupVisit
unfolding step_at
group_step g = step_at g.stage g

-- A step of visitGroup or of a worker.
pub data Step : GroupVisit → GroupVisit → Type 0 where
  by_group : (g h : GroupVisit) → group_step g ≡ some h → Step g h
  by_worker :
      (g : GroupVisit) (i : ℕ) (w w' : Worker) (ks : List ℕ)
      → worker_at i g.workers ≡ some w
      → worker_step w ≡ some (w', ks)
      → Step g (record g { workers = with_worker i w' g.workers; visited = ks ++ g.visited })

-- What comes of any number of steps.
pub data Reach (g : GroupVisit) : GroupVisit → Type 0 where
  at_once : Reach g g
  then_step : (h k : GroupVisit) → Reach g h → Step h k → Reach g k

-- CAPTURE_VISITATION_WARNING.
abbrev pub visitation_warning : ℕ
visitation_warning = 0x10000300

-- The end of visitGroup: the errors of the URLs, in their order, and that of closeAllInternetExplorers.
unfoldable pub end_group : List ℕ → ℕ → VisitEvent → VisitEvent
unfolding set_error_code
end_group codes closing e =
    let e1 : VisitEvent = set_error_codes codes e in
    if closing == 0 then e1 else set_error_code visitation_warning e1
