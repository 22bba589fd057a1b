-- ===== src/Client/FileMonitor/Tests.antt =====
-- The file monitor at concrete inputs.
use hsn_capture_hpc_ng.Base.{ℕ, ◌≡◌, refl, arith, List, [], ◌∷◌, ◌++◌, none, some, true, false}
use hsn_capture_hpc_ng.EventQueue.Clearing.{events}
use hsn_capture_hpc_ng.File.{
  FileEvent, FileManager, get_file_events, Setup, message, message_callback,
}
use hsn_capture_hpc_ng.File.Message.{receive_file_events}
use hsn_capture_hpc_ng.Client.Prefix.{filter_map}
use hsn_capture_hpc_ng.Client.FileMonitor.{FileMonitor, Environment, report_of, handle_all, member}
use hsn_capture_hpc_ng.Client.FileMonitor.Reports.{file_round, file_round_signals}
use hsn_capture_hpc_ng.Client.FileMonitor.Modified.{change_of, last_or, member-handle_all}
use hsn_capture_hpc_ng.Client.FileMonitor.Copies.{
  create_file_path_and_copy, copying, create_file_path_and_copy-root,
}

-- V\a is written, and deleted.
abbrev written : FileEvent
written = record {
  major_type = 4;
  minor_type = 0;
  status = 0;
  information = 3;
  flags = 0;
  time = 1;
  process_id = 8;
  path_length = 8;
  path = b'V' ∷ 0x5C ∷ b'a' ∷ 0 ∷ [];
}

abbrev deleted : FileEvent
deleted = record written { major_type = 0x99 }

abbrev env : Environment
env = record {
  process_path = λ pid. b'p' ∷ [];
  dos_names = (b'V' ∷ [], b'C' ∷ b':' ∷ []) ∷ [];
  is_event_allowed = λ name process path. false;
  monitor_modified_files = true;
  is_directory = λ path. false;
}

abbrev path : List ℕ
path = b'C' ∷ b':' ∷ 0x5C ∷ b'a' ∷ []

abbrev idle : FileMonitor
idle = record { modified_files = []; reports = [] }

modified : member path (handle_all env (deleted ∷ written ∷ []) idle).modified_files ≡ true
unfolding handle_all member
modified = refl

member-handle_all_example :
    member path (handle_all env (deleted ∷ written ∷ []) idle).modified_files
    ≡ last_or env path false (filter_map (change_of env path) (deleted ∷ written ∷ []))
unfolding member
member-handle_all_example = member-handle_all env path (deleted ∷ written ∷ []) idle

abbrev manager : FileManager
manager = record {
  filter = true;
  server_port = true;
  client_port = true;
  timer = true;
  ready = true;
  collect_deleted_files = false;
  log_block = none;
  log_directory = record { characters = []; maximum_length = 0 };
  queued_file_events = record { block = 1; event_block = 2; event = written } ∷ [];
  last_contact_time = 5;
  pool = record { live = 2 ∷ 1 ∷ []; bad_frees = 0 };
}

abbrev setup : Setup
setup = record { collect = false; log_directory_size = 0; log_directory = [] }

file_round_signals_example :
    let (a, f1) = message_callback (message 4 none get_file_events) 100 setup none 7 manager in
    (sent : List FileEvent) × (t : FileMonitor) × (file_round env
        (receive_file_events (λ o. false) 1 a)
        idle
      ≡ some t)
    × (t.reports ≡ [] ++ filter_map (report_of env) sent)
    × (sent ++ events f1.queued_file_events ≡ written ∷ [])
file_round_signals_example =
    file_round_signals env (λ o. false) 1 4 100 setup none 7 manager idle (λ o. refl) (omega arith)
      (omega arith) (omega arith) ((refl, omega arith), tt)

create_file_path_and_copy-root_example :
    create_file_path_and_copy (b'L' ∷ []) path
    ≡ copying path (b'L' ∷ b'C' ∷ 0x5C ∷ b'a' ∷ []) (b'a' ∷ [])
create_file_path_and_copy-root_example =
    create_file_path_and_copy-root (b'L' ∷ []) b'C' refl refl (b'a' ∷ []) (refl, tt) (omega arith)
