-- ===== src/File/Deletion.antt =====
-- CopyFileIfBeingDeleted of CaptureFileMonitor.c, which keeps a file that is about to be deleted.
pub mod Keeping
pub mod Preserving
use hsn_capture_hpc_ng.Base.{
  ℕ, ◌+◌, ◌%◌, List, [], ◌++◌, Option, none, some, Bool, true, false, not, ◌&&◌, ◌==◌,
  if◌then◌else◌,
}
use hsn_capture_hpc_ng.Kernel.Pool.{Pool, allocated, free_if_allocated}
use hsn_capture_hpc_ng.Kernel.Status.{nt_success}
use hsn_capture_hpc_ng.Kernel.Text.{UnicodeString, unicode_string_cat}
use hsn_capture_hpc_ng.File.Directories.{create_all_directories}
use hsn_capture_hpc_ng.File.DosName.{VolumeName, DosName, get_dos_device_name}
use hsn_capture_hpc_ng.File.Copy.{Write, Copy, CopyAnswers, copy_file}

-- IRP_MJ_SET_INFORMATION.
abbrev pub set_information : ℕ
set_information = 6

-- What FLT_CALLBACK_DATA says of the operation: its functions, and DeleteFile where it sets
-- FileDispositionInformation.
pub record Request : Type 0 where
  pub major_function : ℕ
  pub minor_function : ℕ
  pub delete_file : Option Bool

-- Whether the operation marks its file for deletion.
unfoldable pub is_deletion : Request → Bool
is_deletion q =
    q.major_function == set_information
    && elim q.delete_file [ none ↦ false | some deletes ↦ deletes ]

-- FLT_FILE_NAME_INFORMATION, as FltParseFileNameInformation completes it.
pub record NameInformation : Type 0 where
  pub name : UnicodeString
  pub share : UnicodeString
  pub parent_dir : UnicodeString
  pub final_component : UnicodeString

-- The answers of FltIsDirectory, FltIsOperationSynchronous, FltParseFileNameInformation and
-- IoVolumeDeviceToDosName; of the allocations for the drive, for the two paths, and of those in
-- CreateAllDirectories; and those that CopyFile gets.
pub record DeletionAnswers : Type 0 where
  pub is_directory : Bool
  pub is_synchronous : Bool
  pub parse_status : ℕ
  pub volume : VolumeName
  pub drive_block : Option ℕ
  pub path_block : Option ℕ
  pub directory_block : Option ℕ
  pub whole_block : Option ℕ
  pub loop_blocks : ℕ → Option ℕ
  pub copy : CopyAnswers
  pub read : ℕ → ℕ × List ℕ
  pub fuel : ℕ

-- The copy of a file: its path, the directories that were made for it, what was written, and the
-- handles that are left open.
pub record Backup : Type 0 where
  pub path : List ℕ
  pub directories : List (List ℕ)
  pub writes : List Write
  pub left_open : ℕ

-- A string whose Buffer is the answer of the allocation, filled by `fill`. Without a buffer it stays
-- empty.
pub built : ℕ → Option ℕ → (UnicodeString → UnicodeString) → UnicodeString
built maximum answer fill =
    let empty : UnicodeString = record { characters = []; maximum_length = maximum } in
    elim answer [ none ↦ empty | some b ↦ fill empty ]

-- completeFilePath: the log directory, the drive, the directory and the name of the file.
pub complete_path : UnicodeString → UnicodeString → NameInformation → Option ℕ → UnicodeString
unfolding built
complete_path log drive n answer =
    let maximum : ℕ =
      (log.maximum_length + drive.maximum_length + n.final_component.maximum_length
        + n.parent_dir.maximum_length + 2)
      % 0x10000 in
    built maximum answer (λ s.
      unicode_string_cat
        (unicode_string_cat
          (unicode_string_cat (unicode_string_cat s log.characters) drive.characters)
          n.parent_dir.characters)
        n.final_component.characters)

-- fileDirectory: the drive and the directory.
pub file_directory : UnicodeString → NameInformation → Option ℕ → UnicodeString
unfolding built
file_directory drive n answer =
    let maximum : ℕ = (n.parent_dir.maximum_length + drive.maximum_length + 2) % 0x10000 in
    built maximum answer
      (λ s. unicode_string_cat (unicode_string_cat s drive.characters) n.parent_dir.characters)

-- What is left once the file was copied: the three strings are freed.
copied_to :
    UnicodeString
    → List (List ℕ)
    → DeletionAnswers
    → Option ℕ
    → Option Copy
    → Option (Option Backup × Pool)
copied_to path made a drive none = none
copied_to path made a drive (some c) = some (
  some (record {
    path = path.characters;
    directories = made;
    writes = c.writes;
    left_open = c.left_open;
  }),
  free_if_allocated drive
      (free_if_allocated a.directory_block (free_if_allocated a.path_block c.pool)),
)

-- The innermost block, where the file is to be kept; `none` if the fuel of CopyFile runs out.
pub keep_file :
    UnicodeString → NameInformation → DeletionAnswers → Pool → Option (Option Backup × Pool)
unfolding complete_path file_directory copied_to
keep_file log n a m =
    let dos : DosName = get_dos_device_name a.volume (some n.share) a.drive_block m in
    let path : UnicodeString = complete_path log dos.name n a.path_block in
    let directory : UnicodeString = file_directory dos.name n a.directory_block in
    let made : List (List ℕ) × Pool =
      create_all_directories log directory a.whole_block a.loop_blocks
        (allocated a.directory_block (allocated a.path_block dos.pool)) in
    copied_to path made.0 a dos.block (copy_file a.copy a.read a.fuel made.1)

-- CopyFileIfBeingDeleted, with bCollectDeletedFiles and the log directory of the manager. The name
-- information is `none` where the caller's pointer was never set, and so is the result where the
-- function uses it.
pub copy_file_if_being_deleted :
    Bool
    → UnicodeString
    → Request
    → Option NameInformation
    → DeletionAnswers
    → Pool
    → Option (Option Backup × Pool)
unfolding keep_file is_deletion
copy_file_if_being_deleted collects log q information a m =
    if not a.is_directory && is_deletion q && a.is_synchronous
    then elim information [
      | none ↦ none
      | some n ↦
          if nt_success a.parse_status && collects then keep_file log n a m else some (none, m)
    ]
    else some (none, m)
