-- ===== src/Client/FileMonitor.antt =====
-- FileMonitor.cpp: what FileMonitor::run does with the events of the driver, and the copies of the
-- files that were modified.
use hsn_capture_hpc_ng.Base.{
  ℕ, ◌+◌, ◌-◌, List, [], ◌∷◌, ◌++◌, Bool, true, false, not, ◌&&◌, ◌||◌, Option, none, some,
  if◌then◌else◌, ◌==◌, is_same, find_from, take, drop, length,
}
use hsn_capture_hpc_ng.File.{FileEvent}
use hsn_capture_hpc_ng.Client.Prefix.{replace_prefix}
pub mod Reports
pub mod Modified
pub mod Copies
mod Tests

-- signal_onFileEvent, with its arguments; the time before Time::timefieldToString writes it out.
pub record Report : Type 0 where
  pub event_name : List ℕ
  pub time : ℕ
  pub process_id : ℕ
  pub process_path : List ℕ
  pub file_path : List ℕ

-- modifiedFiles, without order or repetition, and what was signalled.
pub record FileMonitor : Type 0 where
  pub modified_files : List (List ℕ)
  pub reports : List Report

-- What run asks of others: getProcessPath, dosNameMap in the order of its iterator, isEventAllowed,
-- monitorModifiedFiles and isDirectory.
pub record Environment : Type 0 where
  pub process_path : ℕ → List ℕ
  pub dos_names : List (List ℕ × List ℕ)
  pub is_event_allowed : List ℕ → List ℕ → List ℕ → Bool
  pub monitor_modified_files : Bool
  pub is_directory : List ℕ → Bool

-- IRP_MJ_CREATE, IRP_MJ_READ, IRP_MJ_WRITE and IRP_MJ_DELETE.
abbrev pub irp_create : ℕ
irp_create = 0

abbrev pub irp_read : ℕ
irp_read = 3

abbrev pub irp_write : ℕ
irp_write = 4

abbrev pub irp_delete : ℕ
irp_delete = 0x99

-- The string of a path, up to its terminator.
unfoldable pub terminated : List ℕ → List ℕ
terminated [] = []
terminated (c ∷ cs) = if c == 0 then [] else c ∷ terminated cs

-- The name of a creation: FILE_SUPERSEDED, FILE_OPENED, FILE_CREATED and FILE_OVERWRITTEN.
pub create_name : ℕ → Option (List ℕ)
create_name information =
    if information == 2 || information == 3 || information == 0
    then some (b'C' ∷ b'r' ∷ b'e' ∷ b'a' ∷ b't' ∷ b'e' ∷ [])
    else (if information == 1 then some (b'O' ∷ b'p' ∷ b'e' ∷ b'n' ∷ []) else none)

-- Whether the path names a stream of a file.
pub has_colon : List ℕ → Bool
has_colon path = elim (find_from b':' 0 0 path) [ none ↦ false | some i ↦ true ]

-- getFileEventName; `none` where it returns false.
unfoldable pub get_file_event_name : FileEvent → Option (List ℕ)
unfolding create_name has_colon terminated
get_file_event_name e =
    if e.major_type == irp_create
    then (if has_colon (terminated e.path) then none else create_name e.information)
    else (if e.major_type == irp_read
        then some (b'R' ∷ b'e' ∷ b'a' ∷ b'd' ∷ [])
        else (if e.major_type == irp_write
            then some (b'W' ∷ b'r' ∷ b'i' ∷ b't' ∷ b'e' ∷ [])
            else (if e.major_type == irp_delete
                then some (b'D' ∷ b'e' ∷ b'l' ∷ b'e' ∷ b't' ∷ b'e' ∷ [])
                else none)))

-- L"UNKNOWN".
abbrev pub unknown : List ℕ
unknown = b'U' ∷ b'N' ∷ b'K' ∷ b'N' ∷ b'O' ∷ b'W' ∷ b'N' ∷ []

-- hash_set: insert and erase.
pub member : List ℕ → List (List ℕ) → Bool
member p [] = false
member p (q ∷ qs) = is_same p q || member p qs

pub erase_file : List ℕ → List (List ℕ) → List (List ℕ)
erase_file p [] = []
erase_file p (q ∷ qs) = let rest = erase_file p qs in if is_same p q then rest else q ∷ rest

pub insert_file : List ℕ → List (List ℕ) → List (List ℕ)
unfolding member
insert_file p qs = if member p qs then qs else p ∷ qs

module _ (env : Environment) where
  -- The report of an event, if it has a name and a path, and is not left out.
  unfoldable pub report_of : FileEvent → Option Report
  unfolding get_file_event_name terminated replace_prefix
  report_of e = elim (get_file_event_name e) [
    | none ↦ none
    | some name ↦
        let process : List ℕ = env.process_path e.process_id in
        let path : List ℕ = replace_prefix env.dos_names (terminated e.path) in
        if not (is_same path unknown) && not (env.is_event_allowed name process path)
        then some (record {
          event_name = name;
          time = e.time;
          process_id = e.process_id;
          process_path = process;
          file_path = path;
        })
        else none
  ]

  -- modifiedFiles once an event on a path was let through.
  pub modified_by : ℕ → List ℕ → List (List ℕ) → List (List ℕ)
  unfolding insert_file erase_file
  modified_by major path files =
      if env.monitor_modified_files && not (env.is_directory path)
      then (if major == irp_create || major == irp_write
          then insert_file path files
          else (if major == irp_delete then erase_file path files else files))
      else files

  -- What is done with the report of an event.
  pub handled : FileEvent → FileMonitor → Option Report → FileMonitor
  unfolding modified_by
  handled e s none = s
  handled e s (some r) = record {
    modified_files = modified_by e.major_type r.file_path s.modified_files;
    reports = s.reports ++ (r ∷ []);
  }

  -- One round of the loop over the events.
  pub handle : FileEvent → FileMonitor → FileMonitor
  unfolding report_of handled
  handle e s = handled e s (report_of e)

  unfoldable pub handle_all : List FileEvent → FileMonitor → FileMonitor
  unfolding handle
  handle_all [] s = s
  handle_all (e ∷ es) s = handle_all es (handle e s)
