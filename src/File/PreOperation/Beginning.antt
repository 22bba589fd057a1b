-- ===== src/File/PreOperation/Beginning.antt =====
-- The driver once PreFileOperationCallback (CaptureFileMonitor.c) has returned.
use hsn_capture_hpc_ng.Base.{
  ℕ, ◌≤◌, ◌≡◌, ◌⊎◌, refl, List, [], ◌∷◌, ◌++◌, Option, none, some, Bool, true, false, not, ◌||◌,
  if◌then◌else◌, ◌==◌, ltb, length, length-append, arith, Bool-cases, Option-cases, inl, inr,
}
use hsn_capture_hpc_ng.Kernel.Pool.{
  Pool, Holds, block_of, allocated, free, allocated-Holds, allocated_null, free-Holds,
  free-allocated-Holds, Holds-swap, Holds-from_front_past,
}
use hsn_capture_hpc_ng.Kernel.Status.{nt_success, status_buffer_too_small}
use hsn_capture_hpc_ng.Kernel.Text.{UnicodeString, length-copy}
use hsn_capture_hpc_ng.EventQueue.Clearing.{blocks}
use hsn_capture_hpc_ng.File.{FileEvent, FileManager}
use hsn_capture_hpc_ng.File.Invariant.{
  IsValid, IsWellFormed, context_block, ContextIsWellFormed, post_file_operation-IsValid,
}
use hsn_capture_hpc_ng.File.DosName.{leaked}
use hsn_capture_hpc_ng.File.Deletion.{
  is_deletion, NameInformation, Backup, copy_file_if_being_deleted,
}
use hsn_capture_hpc_ng.File.Deletion.Keeping.{
  KeepsPool, ReadsFile, copy_file_if_being_deleted-KeepsPool,
  copy_file_if_being_deleted-KeepsPool_unset,
}
use hsn_capture_hpc_ng.File.PreOperation.{
  FileObject, Operation, PreAnswers, path_of, Found, found_name, found_with, nothing_found,
  query_path, temporary_path, volume_path, is_complete, file_object_path, with_path, by_file_object,
  then_by_file_object, find_path, written_path, make_event, Completion, Begun, begin, begin_with,
  pre_file_operation, shutdown,
}

-- What the callback relies on: the drive's name does not leak, a file that is kept can be read, the
-- name information is set where it is used, and the block for the start of the name is allocated.
pub record IsSafe (contents : List ℕ) (o : Operation) (a : PreAnswers) : Type 0 where
  pub drive_kept : leaked a.deletion.volume a.deletion.drive_block ≡ []
  pub file_read : ReadsFile contents a.deletion
  pub information_set : (nt_success a.normalized_status ≡ true) ⊎ (is_deletion o.request ≡ false)
  pub device : ℕ
  pub device_allocated : a.device_block ≡ some device

-- A path of at most NTSTRSAFE_UNICODE_STRING_MAX_CCH characters.
abbrev IsShort : Option (List ℕ) → Type 0
IsShort none = Unit {0}
IsShort (some path) = length path ≤ 0x7FFF

abbrev FoundHolds : List ℕ → Option Found → Type 0
FoundHolds bs none = ⊥
FoundHolds bs (some f) = Holds f.pool bs × IsShort f.path

path_of-IsShort : (s : UnicodeString) → IsShort (some (path_of s))
unfolding path_of
path_of-IsShort s =
    omega (arith, length-copy (record { characters = []; maximum_length = 65534 }) s.characters)

IsShort-if : (b : Bool) (s : UnicodeString) → IsShort (if b then some (path_of s) else none)
IsShort-if true s = path_of-IsShort s
IsShort-if false s = tt

found_with-FoundHolds :
    (n : NameInformation) (r : Option (Option Backup × Pool)) (bs : List ℕ)
    → KeepsPool bs r
    → FoundHolds bs (found_with n r)
unfolding found_with found_name
found_with-FoundHolds n none bs h = h
found_with-FoundHolds n (some (backup, m)) bs h =
    (h, IsShort-if (ltb 0 (length n.name.characters)) n.name)

volume_path-Holds :
    (object : FileObject) (a : PreAnswers) (m : Pool) (bs : List ℕ)
    → Holds m bs
    → Holds (volume_path object a m).1 bs × IsShort (volume_path object a m).0
unfolding volume_path
volume_path-Holds object a m bs h = elim (Bool-cases (a.size_status == status_buffer_too_small)) [
  | inl e ↦ rw e (elim (Option-cases a.volume_block) [
    | inl n ↦ rw n (h, tt)
    | inr v ↦ rw v.1 (
      free-allocated-Holds v.0 m bs h,
      IsShort-if (nt_success a.volume_status) (temporary_path object a),
    )
  ])
  | inr e ↦ rw e (h, tt)
]

module _ (contents : List ℕ) (upcase : ℕ → ℕ) (o : Operation) (a : PreAnswers)
    (safe : IsSafe contents o a) (bs : List ℕ) where
  query_path-FoundHolds :
      (collects : Bool) (log : UnicodeString) (m : Pool)
      → Holds m bs
      → FoundHolds bs (query_path collects log o a m)
  unfolding query_path nothing_found
  query_path-FoundHolds collects log m h =
      let opened : is_deletion o.request ≡ false
          → FoundHolds bs (
              found_with a.opened
                (copy_file_if_being_deleted collects log o.request none a.deletion m)) =
        λ e. found_with-FoundHolds a.opened _ bs (
          copy_file_if_being_deleted-KeepsPool_unset contents collects log o.request a.deletion m bs
            safe.file_read safe.drive_kept h e) in
      elim (Option-cases o.file_object) [
        | inl e ↦ rw e (h, tt)
        | inr e ↦ rw e.1 (elim (Bool-cases (nt_success a.normalized_status)) [
          | inl n ↦ rw n (
              found_with-FoundHolds a.normalized _ bs (
                copy_file_if_being_deleted-KeepsPool contents collects log o.request a.deletion m bs
                  safe.file_read safe.drive_kept h a.normalized))
          | inr n ↦ rw n (elim (Bool-cases (nt_success a.opened_status)) [
            | inl s ↦ rw s (elim safe.information_set [
              | inl set ↦ absurd (ground (arith, set, n))
              | inr e ↦ opened e
            ])
            | inr s ↦ rw s (h, tt)
          ])
        ])
      ]

  file_object_path-Holds :
      (object : FileObject) (m : Pool)
      → Holds m bs
      → (p : Option (List ℕ) × Pool) × (file_object_path upcase object a m ≡ some p)
        × Holds p.1 bs
        × IsShort p.0
  unfolding file_object_path
  file_object_path-Holds object m h =
      let m1 : Pool = allocated (some safe.device) m in
      let held : Holds m1 (safe.device ∷ bs) = allocated-Holds safe.device m bs h in
      elim (Bool-cases (object.has_related || not (ltb 0 (length object.file_name.characters)))) [
        | inl e ↦ ((none, m), rw e, h, tt)
        | inr e ↦ elim (Bool-cases (is_complete upcase object.file_name)) [
          | inl c ↦ (
            (some (path_of object.file_name), free safe.device m1),
            rw (e, safe.device_allocated, c) refl,
            free-Holds safe.device m1 bs held,
            path_of-IsShort object.file_name,
          )
          | inr c ↦ (
            ((volume_path object a m1).0, free safe.device (volume_path object a m1).1),
            rw (e, safe.device_allocated, c) refl,
            free-Holds safe.device _ bs (volume_path-Holds object a m1 (safe.device ∷ bs) held).0,
            (volume_path-Holds object a m1 (safe.device ∷ bs) held).1,
          )
        ]
      ]

  by_file_object-FoundHolds :
      (f : Found) (path : Option (List ℕ)) (object : Option FileObject)
      → Holds f.pool bs
      → f.path ≡ path
      → IsShort path
      → FoundHolds bs (by_file_object upcase a f path object)
  unfolding by_file_object with_path
  by_file_object-FoundHolds f (some path) object h e short = (h, rw e short)
  by_file_object-FoundHolds f none none h e short = (h, rw e tt)
  by_file_object-FoundHolds f none (some object) h e short =
      let found = file_object_path-Holds object f.pool h in rw found.1 (found.2, found.3)

  then_by_file_object-FoundHolds :
      (r : Option Found) → FoundHolds bs r → FoundHolds bs (then_by_file_object upcase o a r)
  unfolding then_by_file_object
  then_by_file_object-FoundHolds none h = h
  then_by_file_object-FoundHolds (some f) h =
      by_file_object-FoundHolds f f.path o.file_object h.0 refl h.1

  find_path-FoundHolds :
      (collects : Bool) (log : UnicodeString) (m : Pool)
      → Holds m bs
      → FoundHolds bs (find_path upcase collects log o a m)
  unfolding find_path
  find_path-FoundHolds collects log m h =
      then_by_file_object-FoundHolds _ (query_path-FoundHolds collects log m h)

-- The event is well formed, whatever its path is.
make_event-IsWellFormed :
    (o : Operation) (path : List ℕ) (memory : FileEvent)
    → length path ≤ 0x7FFF
    → IsWellFormed (make_event o path memory)
unfolding make_event
make_event-IsWellFormed o path memory short =
    (omega (arith, length-append path (0 ∷ [])), omega arith)

written_path-short : (p : Option (List ℕ)) → IsShort p → length (written_path p) ≤ 0x7FFF
unfolding written_path
written_path-short none h = omega arith
written_path-short (some path) h = h

-- The driver is valid besides the block of the event that the operation was given, if any, and that
-- event is well formed.
abbrev pub Begins : List ℕ → Option Begun → Type 0
Begins others none = ⊥
Begins others (some r) =
    IsValid (context_block r.context ++ others) r.manager × ContextIsWellFormed r.context

module _ (others : List ℕ) (o : Operation) (a : PreAnswers) (c : Completion) (f : FileManager)
    (v : IsValid others f) where
  held : List ℕ
  held = blocks f.queued_file_events ++ (block_of f.log_block ++ others)

  -- The manager with the event's block, and without that of the path.
  begun-IsValid :
      (buffer b : ℕ) (m : Pool)
      → Holds m (buffer ∷ held)
      → IsValid (b ∷ others) (record f { pool = free buffer (allocated (some b) m) })
  unfolding held
  begun-IsValid buffer b m h = record {
    owned = Holds-from_front_past b _ (blocks f.queued_file_events) (block_of f.log_block) others (
        free-Holds buffer _ (b ∷ held)
          (Holds-swap b buffer _ [] held (allocated-Holds b m (buffer ∷ held) h)));
    well_formed = v.well_formed;
    log_bounded = v.log_bounded;
  }

  begin-Begins :
      (buffer : ℕ) (found : Found)
      → FoundHolds (buffer ∷ held) (some found)
      → Begins others (some (begin o a c buffer found f))
  unfolding begin held
  begin-Begins buffer found h =
      let e = make_event o (written_path found.path) a.memory in
      let w =
        make_event-IsWellFormed o (written_path found.path) a.memory
          (written_path-short found.path h.1) in
      elim (Option-cases a.event_block) [
        | inl n ↦ rw n (
          record {
            owned = free-Holds buffer _ _ (rw allocated_null h.0);
            well_formed = v.well_formed;
            log_bounded = v.log_bounded;
          },
          tt,
        )
        | inr b ↦ elim (Bool-cases (o.request.major_function == shutdown)) [
          | inl s ↦
              rw (b.1, s)
                (
                  post_file_operation-IsValid others (some (b.0, e)) false c.status c.information
                      c.now c.packet _ w (begun-IsValid buffer b.0 found.pool h.0),
                  tt,
                )
          | inr s ↦ rw (b.1, s) (begun-IsValid buffer b.0 found.pool h.0, w)
        ]
      ]

  begin_with-Begins :
      (buffer : ℕ) (r : Option Found)
      → FoundHolds (buffer ∷ held) r
      → Begins others (begin_with o a c buffer f r)
  unfolding begin_with
  begin_with-Begins buffer none h = h
  begin_with-Begins buffer (some found) h = begin-Begins buffer found h

  -- In a valid driver the callback returns, whatever the operation, and leaves the driver valid, where
  -- it is safe: of what it has allocated only the event's block is left, with the operation that it was
  -- given to, and the event is well formed.
  pub pre_file_operation-Begins :
      (contents : List ℕ) (upcase : ℕ → ℕ)
      → IsSafe contents o a
      → Begins others (pre_file_operation upcase o a c f)
  unfolding pre_file_operation held
  pre_file_operation-Begins contents upcase safe = elim (Bool-cases o.is_fs_filter) [
    | inl e ↦ rw e (v, tt)
    | inr e ↦ rw e (elim (Option-cases a.path_block) [
      | inl n ↦ rw n (v, tt)
      | inr b ↦ rw b.1 (
          begin_with-Begins b.0 _ (
            find_path-FoundHolds contents upcase o a safe (b.0 ∷ held) f.collect_deleted_files
              f.log_directory _ (allocated-Holds b.0 f.pool held v.owned)))
    ])
  ]
