-- ===== src/Process/Tests.antt =====
-- The process driver at concrete inputs.
use hsn_capture_hpc_ng.Base.{◌≤◌, ◌≡◌, refl, arith, [], ◌∷◌, none, some, true, false}
use hsn_capture_hpc_ng.Kernel.Status.{status_info_length_mismatch}
use hsn_capture_hpc_ng.Process.{ProcessEvent, ProcessManager, ImageQuery, unload_driver}
use hsn_capture_hpc_ng.Process.Invariant.{IsValid, Report, callbacks, unload_driver_leaks_handles}
use hsn_capture_hpc_ng.Process.Request.{received, requests, requests-InOrder}

abbrev started : ProcessEvent
started = record {
  time = 1;
  parent_process_id = 4;
  process_id = 8;
  created = true;
  path = some (0x41 ∷ []);
}

abbrev ended : ProcessEvent
ended = record { time = 2; parent_process_id = 4; process_id = 8; created = false; path = none }

abbrev two_waiting : ProcessManager
two_waiting = record {
  device = true;
  link = true;
  callback = true;
  ready = true;
  current_process_event = none;
  queued_process_events =
      record { block = 5; event = started } ∷ record { block = 6; event = ended } ∷ [];
  queued_count = 2;
  open_handles = 3;
  pulses = 2;
  pool = record { live = 5 ∷ 6 ∷ 9 ∷ []; bad_frees = 0 };
}

two_waiting-IsValid : IsValid (9 ∷ []) two_waiting
two_waiting-IsValid = record { owned = (refl, λ a. refl); counted = refl; unused = refl }

abbrev image : ImageQuery
image = record {
  lookup_status = 0;
  open_status = 0;
  size_status = status_info_length_mismatch;
  returned_length = 12;
  buffer = some 20;
  name_status = 0;
  name = 0x41 ∷ 0x42 ∷ [];
}

abbrev report : Report
report = record {
  parent = 4;
  process = 12;
  create = true;
  answers = record {
    time = 3;
    packet_block = some 7;
    first = image;
    path_block = some 21;
    second = image;
  };
}

unload_driver_leaks_handles_example :
    5 ≤ (unload_driver (callbacks (report ∷ report ∷ []) two_waiting)).open_handles
unload_driver_leaks_handles_example =
    unload_driver_leaks_handles (report ∷ report ∷ []) two_waiting
      (((7, refl), refl, refl, ((7, refl), refl, refl, tt)))

requests-InOrder_example :
    (received (requests 2 2080 two_waiting).0 ≡ started ∷ ended ∷ [])
    × ((requests 2 2080 two_waiting).1.queued_process_events ≡ [])
requests-InOrder_example = requests-InOrder 2080 two_waiting (omega arith)
