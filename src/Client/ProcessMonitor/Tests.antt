-- ===== src/Client/ProcessMonitor/Tests.antt =====
-- The process monitor at concrete inputs.
use hsn_capture_hpc_ng.Base.{ℕ, ◌≡◌, refl, arith, List, [], ◌∷◌, Option, none, some, true, length}
use hsn_capture_hpc_ng.Client.Paths.{convert}
use hsn_capture_hpc_ng.Client.ProcessManager.{
  Manager, Run, returns, lookup, get_process_path, on_process_event,
}
use hsn_capture_hpc_ng.Client.ProcessManager.Mapping.{missing}
use hsn_capture_hpc_ng.Client.ProcessManager.Search.{Ends}
use hsn_capture_hpc_ng.Client.ProcessManager.Tests.{env, fresh, ours-contained}
use hsn_capture_hpc_ng.Client.ProcessMonitor.{ProcessInfo, zeroed, run}
use hsn_capture_hpc_ng.Client.ProcessMonitor.Handling.{run-Ends}

-- The process 7 is created by 8, and the event comes twice.
abbrev created : ProcessInfo
created = record { time = []; parent_id = 8; process_id = 7; create = true }

abbrev answers : List (Option ProcessInfo)
answers = none ∷ some created ∷ some created ∷ []

run-Ends_example : Ends fresh (run env 3 zeroed answers fresh)
unfolding missing lookup
run-Ends_example = run-Ends (7 ∷ 8 ∷ []) env 3 ours-contained zeroed answers fresh (omega arith)

-- It is reported for each time that the search finds the one or the other, and once by the loop.
abbrev reported : Run (ProcessInfo × Manager) → ℕ
reported (returns (p, s)) = length s.reports
reported r = 0

three : reported (run env 3 zeroed answers fresh) ≡ 3
unfolding run on_process_event get_process_path convert
three = refl
