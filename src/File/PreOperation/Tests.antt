-- ===== src/File/PreOperation/Tests.antt =====
-- The beginning of an operation at concrete inputs.
use hsn_capture_hpc_ng.Base.{ℕ, ◌≡◌, refl, arith, List, [], ◌∷◌, ◌++◌, none, some, true, false, map}
use hsn_capture_hpc_ng.Kernel.Pool.{Pool}
use hsn_capture_hpc_ng.File.{FileManager}
use hsn_capture_hpc_ng.File.Invariant.{IsValid}
use hsn_capture_hpc_ng.File.Directories.{parents}
use hsn_capture_hpc_ng.File.Deletion.{copy_file_if_being_deleted, is_deletion}
use hsn_capture_hpc_ng.File.Deletion.Preserving.{
  Preserves, drive_of, copy_file_if_being_deleted-Preserves,
}
use hsn_capture_hpc_ng.File.PreOperation.{PreAnswers, FileObject, pre_file_operation}
use hsn_capture_hpc_ng.File.PreOperation.Beginning.{Begins, pre_file_operation-Begins}
use hsn_capture_hpc_ng.File.PreOperation.Undefined.{pre_file_operation_unset}
use hsn_capture_hpc_ng.File.Tests.Operations.{
  contents, request, name, deletion, operation, answers, completion, is_safe, is_granted, log, fits,
}

abbrev pool : Pool
pool = record { live = 30 ∷ 9 ∷ []; bad_frees = 0 }

-- A driver that collects deleted files.
abbrev driver : FileManager
driver = record {
  filter = true;
  server_port = true;
  client_port = true;
  timer = true;
  ready = true;
  collect_deleted_files = true;
  log_block = some 30;
  log_directory = log;
  queued_file_events = [];
  last_contact_time = 5;
  pool = pool;
}

driver-IsValid : IsValid (9 ∷ []) driver
driver-IsValid = record { owned = (refl, λ a. refl); well_formed = tt; log_bounded = omega arith }

copy_file_if_being_deleted-Preserves_example :
    Preserves contents
      (((log.characters ++ (drive_of name deletion pool).characters) ++ name.parent_dir.characters)
        ++ name.final_component.characters)
      (map
        (λ (p : List ℕ). log.characters ++ p)
        (parents [] ((drive_of name deletion pool).characters ++ name.parent_dir.characters)))
      (copy_file_if_being_deleted true log request (some name) deletion pool)
unfolding is_deletion
copy_file_if_being_deleted-Preserves_example =
    copy_file_if_being_deleted-Preserves contents log request name deletion pool refl refl refl
      is_granted (fits pool)

pre_file_operation-Begins_example :
    Begins (9 ∷ []) (pre_file_operation (λ c. c) operation answers completion driver)
pre_file_operation-Begins_example =
    pre_file_operation-Begins (9 ∷ []) operation answers completion driver driver-IsValid contents
      (λ c. c) is_safe

-- The normalized name is not to be had.
abbrev refused : PreAnswers
refused = record answers { normalized_status = 0xC0000001 }

abbrev object : FileObject
object = record {
  flags = 7;
  has_related = false;
  file_name = record { characters = []; maximum_length = 20 };
}

pre_file_operation_unset_example :
    pre_file_operation (λ c. c) operation refused completion driver ≡ none
unfolding is_deletion
pre_file_operation_unset_example =
    pre_file_operation_unset (λ c. c) operation refused completion driver object 60 refl refl refl
      refl refl refl refl refl
