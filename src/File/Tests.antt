-- ===== src/File/Tests.antt =====
-- The file driver at concrete inputs.
mod Copying
pub mod Operations
use hsn_capture_hpc_ng.Base.{
  ℕ, ◌≡◌, ◌⊎◌, inl, refl, arith, List, [], ◌∷◌, ◌++◌, none, some, true, false,
}
use hsn_capture_hpc_ng.Kernel.Pool.{Holds, allocated, free}
use hsn_capture_hpc_ng.Kernel.Status.{nt_success, status_invalid_parameter}
use hsn_capture_hpc_ng.EventQueue.Clearing.{events}
use hsn_capture_hpc_ng.EventQueue.Sending.{Sends}
use hsn_capture_hpc_ng.File.{
  FileEvent, FileManager, file_event_size, driver_entry, post_file_operation, filter_unload,
  connect, disconnect, get_file_events, setup_monitor, Setup, sizeof_setup, kernel_prefix, message,
  message_callback,
}
use hsn_capture_hpc_ng.File.Invariant.{IsValid, post_file_operation-IsValid}
use hsn_capture_hpc_ng.File.Message.{
  returned_bytes, message_callback-Sends, receive_file_events, receive-message_callback,
  message_callback_setup,
}
use hsn_capture_hpc_ng.File.PreOperation.{
  Operation, PreAnswers, Begun, make_event, unknown_path, pre_file_operation,
}
use hsn_capture_hpc_ng.File.PreOperation.Beginning.{IsSafe}
use hsn_capture_hpc_ng.File.Tests.Operations.{contents, operation, answers, completion, is_safe}
use hsn_capture_hpc_ng.File.Lifecycle.{IsEmptied, file_driver_entry_outcome}
use hsn_capture_hpc_ng.File.System.{
  System, Reach, here, next, began, completed, connected, messaged, IsConsistent,
  filter_unload-Reach,
}

abbrev written : FileEvent
written = record {
  major_type = 4;
  minor_type = 0;
  status = 0;
  information = 3;
  flags = 0;
  time = 1;
  process_id = 8;
  path_length = 4;
  path = 0x41 ∷ 0 ∷ [];
}

abbrev closed : FileEvent
closed = record written { major_type = 2; information = 0 }

abbrev two_waiting : FileManager
two_waiting = record {
  filter = true;
  server_port = true;
  client_port = true;
  timer = true;
  ready = true;
  collect_deleted_files = true;
  log_block = some 30;
  log_directory = record { characters = []; maximum_length = 0 };
  queued_file_events =
      record { block = 1; event_block = 2; event = written }
      ∷ record { block = 3; event_block = 4; event = closed }
      ∷ [];
  last_contact_time = 5;
  pool = record { live = 2 ∷ 1 ∷ 4 ∷ 3 ∷ 30 ∷ 9 ∷ []; bad_frees = 0 };
}

two_waiting-IsValid : IsValid (9 ∷ []) two_waiting
two_waiting-IsValid = record {
  owned = (refl, λ a. refl);
  well_formed = ((refl, omega arith), ((refl, omega arith), tt));
  log_bounded = omega arith;
}

-- The log directory is named by two characters.
abbrev setup : Setup
setup = record { collect = true; log_directory_size = 4; log_directory = 0x43 ∷ 0x3A ∷ [] }

message_callback-Sends_example :
    let (a, f') = message_callback (message 4 none get_file_events) 50 setup none 7 two_waiting in
    Sends file_event_size 50
      (written ∷ closed ∷ [])
      (returned_bytes a)
      a.output
      (events f'.queued_file_events)
    × (a.status ≡ 0)
    × (f'.last_contact_time ≡ 7)
message_callback-Sends_example =
    message_callback-Sends 4 50 setup none 7 two_waiting (omega arith) (omega arith)
      two_waiting-IsValid.well_formed

message_callback_setup_example :
    let (a, f') =
      message_callback (message 4 none setup_monitor) sizeof_setup setup (some 31) 7 two_waiting in
    (f'.collect_deleted_files ≡ true)
    × (f'.log_block ≡ some 31)
    × (f'.log_directory.characters ≡ kernel_prefix ++ 0x43 ∷ 0x3A ∷ [])
    × (a.status ≡ status_invalid_parameter)
message_callback_setup_example =
    message_callback_setup 4 setup 31 7 two_waiting (omega arith) refl (omega arith) (omega arith)

abbrev idle : System
idle = record { manager = two_waiting; pending = [] }

abbrev unloaded : FileManager
unloaded = record two_waiting {
  log_block = none;
  queued_file_events = [];
  pool = record { live = 9 ∷ []; bad_frees = 0 };
}

abbrev loaded : System
loaded = record { manager = (driver_entry 0 0 0 0 7 unloaded).1; pending = [] }

abbrev after_connect : FileManager
after_connect = connect loaded.manager

-- A program connects, and an operation begins and is completed.
abbrev nameless : Operation
nameless = record operation { file_object = none }

abbrev begun : Begun
begun = record {
  context = some (5, make_event nameless unknown_path answers.memory);
  backup = none;
  manager = record after_connect {
    pool = free 60 (allocated (some 5) (allocated (some 60) after_connect.pool));
  };
}

abbrev at_rest : FileManager
at_rest = post_file_operation begun.context false 0 0 8 (some 6) begun.manager

nameless-IsSafe : IsSafe contents nameless answers
nameless-IsSafe = record {
  drive_kept = refl;
  file_read = is_safe.file_read;
  information_set = inl refl;
  device = 61;
  device_allocated = refl;
}

-- The operations that begin here are the safe ones.
abbrev IsAllowed : Operation → PreAnswers → Type 0
IsAllowed o a = (kept : List ℕ) × IsSafe kept o a

to_rest : Reach IsAllowed loaded (record { manager = at_rest; pending = [] })
unfolding pre_file_operation
to_rest =
    next
      (next (next here connected)
        (began (λ c. c) nameless answers completion begun (contents, nameless-IsSafe) refl))
      (completed [] [] 5 (make_event nameless unknown_path answers.memory) false 0 0 8 (some 6)
        refl)

filter_unload-Reach_example : Holds (filter_unload at_rest).pool (9 ∷ [])
filter_unload-Reach_example =
    filter_unload-Reach IsAllowed (9 ∷ []) 7 unloaded (record { manager = at_rest; pending = [] })
      (λ o a h. h) (refl, λ a. refl) to_rest refl

abbrev absent : FileManager
absent = record unloaded { filter = false; server_port = false; timer = false }

-- The filter is registered, and its security descriptor cannot be built.
file_driver_entry_outcome_example :
    let (status, f') = driver_entry 0 0xC000009A 0 0 7 absent in
    ((nt_success 0 ≡ true)
      × (nt_success 0xC000009A ≡ true)
      × (nt_success 0 ≡ true)
      × (nt_success 0 ≡ true)
      × (status ≡ 0)
      × (f'.filter ≡ true)
      × (f'.server_port ≡ true)
      × (f'.timer ≡ true)
      × (f'.ready ≡ true)
      × (f'.queued_file_events ≡ [])
      × (f'.log_block ≡ none)
      × (f'.collect_deleted_files ≡ false)
      × (f'.last_contact_time ≡ 7))
    ⊎ ((nt_success status ≡ false)
        × (f'.ready ≡ false)
        × (f'.filter ≡ false)
        × (f'.server_port ≡ false)
        × (f'.timer ≡ false))
    ⊎ ((nt_success 0xC000009A ≡ false)
        × (status ≡ 0xC000009A)
        × (f'.ready ≡ false)
        × (f'.filter ≡ true)
        × (f'.server_port ≡ false)
        × (f'.timer ≡ false))
file_driver_entry_outcome_example =
    file_driver_entry_outcome 0 0xC000009A 0 0 7 absent refl refl refl
