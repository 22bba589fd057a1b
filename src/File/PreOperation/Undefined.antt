-- ===== src/File/PreOperation/Undefined.antt =====
-- When PreFileOperationCallback (CaptureFileMonitor.c) uses name information that was never set.
use hsn_capture_hpc_ng.Base.{ℕ, ◌≡◌, refl, none, some, Bool, true, false}
use hsn_capture_hpc_ng.Kernel.Pool.{Pool, allocated}
use hsn_capture_hpc_ng.Kernel.Status.{nt_success}
use hsn_capture_hpc_ng.Kernel.Text.{UnicodeString}
use hsn_capture_hpc_ng.File.{FileManager}
use hsn_capture_hpc_ng.File.Deletion.{is_deletion}
use hsn_capture_hpc_ng.File.Deletion.Keeping.{copy_file_if_being_deleted_unset}
use hsn_capture_hpc_ng.File.PreOperation.{
  FileObject, Operation, PreAnswers, found_with, query_path, then_by_file_object, find_path,
  Completion, begin_with, pre_file_operation,
}

module _ (o : Operation) (a : PreAnswers) (object : FileObject)
    (opened_file : o.file_object ≡ some object) (deletes : is_deletion o.request ≡ true)
    (failed : nt_success a.normalized_status ≡ false) (opened : nt_success a.opened_status ≡ true)
    (file : a.deletion.is_directory ≡ false) (waits : a.deletion.is_synchronous ≡ true) where
  query_path_unset :
      (collects : Bool) (log : UnicodeString) (m : Pool) → query_path collects log o a m ≡ none
  unfolding query_path found_with
  query_path_unset collects log m =
      rw (opened_file, failed, opened)
        (rw
          (copy_file_if_being_deleted_unset collects log o.request a.deletion m file deletes waits)
          refl)

  find_path_unset :
      (upcase : ℕ → ℕ) (collects : Bool) (log : UnicodeString) (m : Pool)
      → find_path upcase collects log o a m ≡ none
  unfolding find_path then_by_file_object
  find_path_unset upcase collects log m = rw (query_path_unset collects log m) refl

-- Where only the name that a file was opened by is found, an operation that marks the file for
-- deletion, and is synchronous and not about a directory, is answered by undefined behaviour, whether
-- deleted files are collected or not: it is the name information of the query that failed that
-- CopyFileIfBeingDeleted is given.
pub pre_file_operation_unset :
    (upcase : ℕ → ℕ) (o : Operation) (a : PreAnswers) (c : Completion) (f : FileManager)
    (object : FileObject) (buffer : ℕ)
    → o.is_fs_filter ≡ false
    → o.file_object ≡ some object
    → is_deletion o.request ≡ true
    → a.path_block ≡ some buffer
    → nt_success a.normalized_status ≡ false
    → nt_success a.opened_status ≡ true
    → a.deletion.is_directory ≡ false
    → a.deletion.is_synchronous ≡ true
    → pre_file_operation upcase o a c f ≡ none
unfolding pre_file_operation begin_with
pre_file_operation_unset upcase o a c f object buffer irp opened_file deletes room failed opened
      file waits =
    rw (irp, room)
      (rw
        (find_path_unset o a object opened_file deletes failed opened file waits upcase
          f.collect_deleted_files f.log_directory (allocated (some buffer) f.pool))
        refl)
