-- ===== src/Client/ProcessMonitor/Handling.antt =====
-- The loop of ProcessMonitor::run (ProcessMonitor.cpp) ends with the events that it is given.
use hsn_capture_hpc_ng.Base.{
  ℕ, ◌<◌, ◌≡◌, List, [], ◌∷◌, true, Option, none, some, Bool-cases, inl, inr,
}
use hsn_capture_hpc_ng.Client.ProcessManager.{Manager, image, Environment, get_process_path}
use hsn_capture_hpc_ng.Client.ProcessManager.Mapping.{missing, contains}
use hsn_capture_hpc_ng.Client.ProcessManager.Search.{
  Ends, Safe, >>=-Safe, pure-Safe, on_process_event-Safe, get_process_path-Ends,
}
use hsn_capture_hpc_ng.Client.ProcessMonitor.{
  ProcessInfo, is_repeated, handle_repeated, handle_new, handle_event, run,
}

module _ (known : List ℕ) (env : Environment) (fuel : ℕ)
    (opens : (pid : ℕ) (p : List ℕ) → env.image_of pid ≡ image p → contains pid known ≡ true) where
  get_process_path-Safe : (pid : ℕ) → Safe known fuel (get_process_path env fuel pid)
  get_process_path-Safe pid = record {
    at = λ s small. get_process_path-Ends env known opens fuel pid s small;
  }

  handle_repeated-Safe : (last p : ProcessInfo) → Safe known fuel (handle_repeated env fuel last p)
  unfolding handle_repeated
  handle_repeated-Safe last p = >>=-Safe known fuel _ _ (get_process_path-Safe p.process_id) (λ own.
      >>=-Safe known fuel _ _ (get_process_path-Safe p.parent_id)
        (λ parent. pure-Safe known fuel last))

  handle_new-Safe : (p : ProcessInfo) → Safe known fuel (handle_new env fuel p)
  unfolding handle_new
  handle_new-Safe p =
      >>=-Safe known fuel _ _
        (on_process_event-Safe known fuel env (get_process_path env fuel) get_process_path-Safe
          p.create p.process_id p.parent_id p.time)
        (λ _. pure-Safe known fuel p)

  handle_event-Safe : (last p : ProcessInfo) → Safe known fuel (handle_event env fuel last p)
  unfolding handle_event
  handle_event-Safe last p = elim (Bool-cases (is_repeated p last)) [
    | inl e ↦ rw e (handle_repeated-Safe last p)
    | inr e ↦ rw e (handle_new-Safe p)
  ]

  run-Safe :
      (last : ProcessInfo) (answers : List (Option ProcessInfo))
      → Safe known fuel (run env fuel last answers)
  unfolding run
  run-Safe last [] = pure-Safe known fuel last
  run-Safe last (none ∷ answers) = run-Safe last answers
  run-Safe last (some p ∷ answers) =
      >>=-Safe known fuel _ _ (handle_event-Safe last p) (λ q. run-Safe q answers)

  -- Each process that can be opened is one of those known: on fuel for more than the known processes that
  -- have no entry, the monitor gets to the end of any answers of the driver, unless a path throws, though
  -- the search for a path may call it again for a process and its parents; no process loses its entry.
  pub run-Ends :
      (last : ProcessInfo) (answers : List (Option ProcessInfo)) (s : Manager)
      → missing known s.process_map < fuel
      → Ends s (run env fuel last answers s)
  run-Ends last answers s small = (run-Safe last answers).at s small
