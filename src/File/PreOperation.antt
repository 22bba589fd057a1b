-- ===== src/File/PreOperation.antt =====
-- PreFileOperationCallback of CaptureFileMonitor.c, which makes the event of an operation before it
-- is carried out.
pub mod Beginning
pub mod Undefined
mod Tests
use hsn_capture_hpc_ng.Base.{
  ℕ, ◌+◌, ◌*◌, ◌%◌, List, [], ◌∷◌, ◌++◌, Option, none, some, Bool, true, false, not, ◌&&◌, ◌||◌,
  ◌==◌, ltb, leb, if◌then◌else◌, length, take, map, is_same,
}
use hsn_capture_hpc_ng.Kernel.Pool.{Pool, allocated, free}
use hsn_capture_hpc_ng.Kernel.Status.{nt_success, status_buffer_too_small}
use hsn_capture_hpc_ng.Kernel.Text.{
  UnicodeString, byte_length, unicode_string_cat, unicode_string_copy,
}
use hsn_capture_hpc_ng.File.{FileEvent, FileManager, post_file_operation}
use hsn_capture_hpc_ng.File.Deletion.{
  Request, is_deletion, NameInformation, DeletionAnswers, Backup, copy_file_if_being_deleted,
}

-- IRP_MJ_SHUTDOWN, and the type that a deletion is given.
abbrev pub shutdown : ℕ
shutdown = 16

abbrev pub deletion_type : ℕ
deletion_type = 0x99

-- FILE_OBJECT; whether RelatedFileObject is not NULL.
pub record FileObject : Type 0 where
  pub flags : ℕ
  pub has_related : Bool
  pub file_name : UnicodeString

-- The operation: whether it is one of the file system filter, its file object, the process of its
-- thread, the current process, and the local time.
pub record Operation : Type 0 where
  pub is_fs_filter : Bool
  pub request : Request
  pub file_object : Option FileObject
  pub thread_process : Option ℕ
  pub current_process : ℕ
  pub time : ℕ

-- The answers of the allocations; of the two calls of FltGetFileNameInformation, with what each gives
-- where it succeeds; and of the two calls of FltGetVolumeName. `memory` is what the event's block
-- holds before.
pub record PreAnswers : Type 0 where
  pub path_block : Option ℕ
  pub normalized_status : ℕ
  pub normalized : NameInformation
  pub opened_status : ℕ
  pub opened : NameInformation
  pub deletion : DeletionAnswers
  pub device_block : Option ℕ
  pub size_status : ℕ
  pub size : ℕ
  pub volume_block : Option ℕ
  pub volume_status : ℕ
  pub volume_name : List ℕ
  pub event_block : Option ℕ
  pub memory : FileEvent

-- filePath once a string was copied to it: NTSTRSAFE_UNICODE_STRING_MAX_CCH characters of room.
pub path_of : UnicodeString → List ℕ
path_of s =
    let empty : UnicodeString = record { characters = []; maximum_length = 65534 } in
    (unicode_string_copy empty s.characters).characters

-- What the search for the path has found, what was kept of the file, and the pool.
pub record Found : Type 0 where
  pub path : Option (List ℕ)
  pub backup : Option Backup
  pub pool : Pool

found_name : NameInformation → Option (Backup) → Pool → Found
unfolding path_of
found_name n backup m = record {
  path = if ltb 0 (length n.name.characters) then some (path_of n.name) else none;
  backup = backup;
  pool = m;
}

found_with : NameInformation → Option (Option Backup × Pool) → Option Found
unfolding found_name
found_with n none = none
found_with n (some (backup, m)) = some (found_name n backup m)

nothing_found : Pool → Found
nothing_found m = record { path = none; backup = none; pool = m }

-- The queries of the file's name. After the second one it is the pointer of the first, never set, that
-- CopyFileIfBeingDeleted is given.
pub query_path : Bool → UnicodeString → Operation → PreAnswers → Pool → Option Found
unfolding found_with nothing_found
query_path collects log o a m = elim o.file_object [
  | none ↦ some (nothing_found m)
  | some _ ↦
      if nt_success a.normalized_status
      then found_with a.normalized
          (copy_file_if_being_deleted collects log o.request (some a.normalized) a.deletion m)
      else (if nt_success a.opened_status
          then found_with a.opened
              (copy_file_if_being_deleted collects log o.request none a.deletion m)
          else some (nothing_found m))
]

-- L"\\Device".
abbrev pub device_prefix : List ℕ
device_prefix = 0x5C ∷ b'D' ∷ b'e' ∷ b'v' ∷ b'i' ∷ b'c' ∷ b'e' ∷ []

-- Whether the name begins with it, by RtlEqualUnicodeString, which ignores case.
is_complete : (ℕ → ℕ) → UnicodeString → Bool
is_complete upcase s =
    leb 14 (byte_length s) && is_same (map upcase device_prefix) (map upcase (take 7 s.characters))

-- szTempPath: the name of the volume with that of the file behind it.
temporary_path : FileObject → PreAnswers → UnicodeString
temporary_path o a =
    let maximum : ℕ = (o.file_name.maximum_length + 2 + a.size % 0x10000) % 0x10000 in
    unicode_string_cat (record { characters = a.volume_name; maximum_length = maximum })
      o.file_name.characters

-- The path by the name of the volume.
volume_path : FileObject → PreAnswers → Pool → Option (List ℕ) × Pool
unfolding path_of temporary_path
volume_path o a m =
    if a.size_status == status_buffer_too_small
    then elim a.volume_block [
      | none ↦ (none, m)
      | some v ↦ (
        if nt_success a.volume_status then some (path_of (temporary_path o a)) else none,
        free v (allocated (some v) m),
      )
    ]
    else (none, m)

-- The path by the file object, where the name is not found by its queries. Without a block for the
-- name's start, NULL is freed at the end, which is `none`.
pub file_object_path : (ℕ → ℕ) → FileObject → PreAnswers → Pool → Option (Option (List ℕ) × Pool)
unfolding path_of is_complete volume_path
file_object_path upcase o a m =
    if o.has_related || not (ltb 0 (length o.file_name.characters))
    then some (none, m)
    else elim a.device_block [
      | none ↦ none
      | some d ↦
          let m1 : Pool = allocated (some d) m in
          let by_volume : Option (List ℕ) × Pool = volume_path o a m1 in
          if is_complete upcase o.file_name
          then some (some (path_of o.file_name), free d m1)
          else some (by_volume.0, free d by_volume.1)
    ]

with_path : Found → Option (Option (List ℕ) × Pool) → Option Found
with_path f none = none
with_path f (some p) = some (record f { path = p.0; pool = p.1 })

-- The second step of the search, by what the first has found and by the file object.
by_file_object : (ℕ → ℕ) → PreAnswers → Found → Option (List ℕ) → Option FileObject → Option Found
unfolding with_path file_object_path
by_file_object upcase a f (some path) object = some f
by_file_object upcase a f none none = some f
by_file_object upcase a f none (some object) = with_path f (file_object_path upcase object a f.pool)

then_by_file_object : (ℕ → ℕ) → Operation → PreAnswers → Option Found → Option Found
unfolding by_file_object
then_by_file_object upcase o a none = none
then_by_file_object upcase o a (some f) = by_file_object upcase a f f.path o.file_object

-- The whole search.
pub find_path : (ℕ → ℕ) → Bool → UnicodeString → Operation → PreAnswers → Pool → Option Found
unfolding then_by_file_object query_path
find_path upcase collects log o a m = then_by_file_object upcase o a (query_path collects log o a m)

-- L"UNKNOWN".
abbrev pub unknown_path : List ℕ
unknown_path = b'U' ∷ b'N' ∷ b'K' ∷ b'N' ∷ b'O' ∷ b'W' ∷ b'N' ∷ []

-- filePath after the search.
pub written_path : Option (List ℕ) → List ℕ
written_path none = unknown_path
written_path (some path) = path

-- The event, with the terminator of its path. What is not set keeps what the memory held.
pub make_event : Operation → List ℕ → FileEvent → FileEvent
unfolding is_deletion
make_event o path memory = record memory {
  path_length = 2 * length path + 2;
  path = path ++ (0 ∷ []);
  major_type = if is_deletion o.request then deletion_type else o.request.major_function;
  minor_type = o.request.minor_function;
  flags = elim o.file_object [ none ↦ memory.flags | some object ↦ object.flags ];
  process_id = elim o.thread_process [ none ↦ o.current_process | some p ↦ p ];
  time = o.time;
}

-- What PostFileOperationCallback takes where it is called at once: status, information, clock and the
-- allocation of a packet.
pub record Completion : Type 0 where
  pub status : ℕ
  pub information : ℕ
  pub now : ℕ
  pub packet : Option ℕ

-- The completion context that the operation is given, with FLT_PREOP_SUCCESS_WITH_CALLBACK, what was
-- kept of the file, and the manager.
pub record Begun : Type 0 where
  pub context : Option (ℕ × FileEvent)
  pub backup : Option Backup
  pub manager : FileManager

-- What follows the search, in the block of the path.
begin : Operation → PreAnswers → Completion → ℕ → Found → FileManager → Begun
unfolding make_event written_path
begin o a c buffer found f =
    let e : FileEvent = make_event o (written_path found.path) a.memory in
    let m : Pool = free buffer (allocated a.event_block found.pool) in
    elim a.event_block [
      | none ↦ record { context = none; backup = found.backup; manager = record f { pool = m } }
      | some b ↦
          if o.request.major_function == shutdown
          then record {
            context = none;
            backup = found.backup;
            manager =
                post_file_operation (some (b, e)) false c.status c.information c.now c.packet
                  (record f { pool = m });
          }
          else record {
            context = some (b, e);
            backup = found.backup;
            manager = record f { pool = m };
          }
    ]

begin_with : Operation → PreAnswers → Completion → ℕ → FileManager → Option Found → Option Begun
unfolding begin
begin_with o a c buffer f none = none
begin_with o a c buffer f (some found) = some (begin o a c buffer found f)

-- PreFileOperationCallback; `none` is undefined behaviour, or the fuel of CopyFile that runs out.
unfoldable pub pre_file_operation :
    (ℕ → ℕ) → Operation → PreAnswers → Completion → FileManager → Option Begun
unfolding begin_with find_path
pre_file_operation upcase o a c f =
    let ignored : Begun = record { context = none; backup = none; manager = f } in
    if o.is_fs_filter then some ignored else elim a.path_block [
      | none ↦ some ignored
      | some buffer ↦ begin_with o a c buffer f (
          find_path upcase f.collect_deleted_files f.log_directory o a
            (allocated (some buffer) f.pool))
    ]
