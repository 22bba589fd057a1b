-- ===== src/File/Deletion/Keeping.antt =====
-- The pool through CopyFileIfBeingDeleted (CaptureFileMonitor.c).
use hsn_capture_hpc_ng.Base.{
  ℕ, ◌<◌, ◌≡◌, refl, List, [], ◌++◌, Option, none, some, Bool, true, false, not, ◌&&◌, length,
  arith, count-append, Bool-cases, inl, inr,
}
use hsn_capture_hpc_ng.Kernel.Pool.{
  Pool, Holds, block_of, allocated, free_if_allocated, allocated-Holds, allocated_null,
  free_if_allocated-Holds, Holds-reorder,
}
use hsn_capture_hpc_ng.Kernel.Status.{nt_success}
use hsn_capture_hpc_ng.Kernel.Text.{UnicodeString}
use hsn_capture_hpc_ng.File.Directories.{create_all_directories-Holds}
use hsn_capture_hpc_ng.File.DosName.{
  leaked, get_dos_device_name, get_dos_device_name-Holds, block-get_dos_device_name,
}
use hsn_capture_hpc_ng.File.Copy.{Copy, copy_buffer_size, Reads}
use hsn_capture_hpc_ng.File.Copy.Ending.{CopyHolds, copy_file-CopyHolds}
use hsn_capture_hpc_ng.File.Deletion.{
  Request, is_deletion, NameInformation, DeletionAnswers, Backup, copied_to, complete_path,
  keep_file, copy_file_if_being_deleted,
}

allocated_answer-Holds :
    (o : Option ℕ) (m : Pool) (bs : List ℕ) → Holds m bs → Holds (allocated o m) (block_of o ++ bs)
allocated_answer-Holds none m bs h = rw allocated_null h
allocated_answer-Holds (some b) m bs h = allocated-Holds b m bs h

-- A string's block, freed from behind another's.
free_second-Holds :
    (o p : Option ℕ) (m : Pool) (bs : List ℕ)
    → Holds m (block_of o ++ (block_of p ++ bs))
    → Holds (free_if_allocated p m) (block_of o ++ bs)
free_second-Holds o p m bs h = free_if_allocated-Holds p m (block_of o ++ bs) (
    Holds-reorder m (block_of o ++ (block_of p ++ bs)) (block_of p ++ (block_of o ++ bs))
      (λ a. omega (
        arith,
        count-append a (block_of o) (block_of p ++ bs),
        count-append a (block_of p) (block_of o ++ bs),
        count-append a (block_of o) bs,
        count-append a (block_of p) bs,
      ))
      h)

-- What is left of the pool where the fuel was enough and nothing undefined was done.
abbrev pub KeepsPool : List ℕ → Option (Option Backup × Pool) → Type 0
KeepsPool bs none = ⊥
KeepsPool bs (some r) = Holds r.1 bs

copied_to-KeepsPool :
    (path : UnicodeString) (made : List (List ℕ)) (a : DeletionAnswers) (drive : Option ℕ)
    (c : Option Copy) (bs : List ℕ)
    → CopyHolds (block_of a.directory_block ++ (block_of a.path_block ++ (block_of drive ++ bs))) c
    → KeepsPool bs (copied_to path made a drive c)
unfolding copied_to
copied_to-KeepsPool path made a drive none bs h = h
copied_to-KeepsPool path made a drive (some c) bs h = free_if_allocated-Holds drive _ bs (
    free_if_allocated-Holds a.directory_block _ (block_of drive ++ bs)
      (free_second-Holds a.directory_block a.path_block c.pool (block_of drive ++ bs) h))

-- Reading answers with the bytes of a file, and there is fuel for each of them and one more.
pub record ReadsFile (contents : List ℕ) (a : DeletionAnswers) : Type 0 where
  pub reads : Reads contents copy_buffer_size a.read
  pub enough : length contents < a.fuel

keep_file-KeepsPool :
    (contents : List ℕ) (log : UnicodeString) (n : NameInformation) (a : DeletionAnswers) (m : Pool)
    (bs : List ℕ)
    → ReadsFile contents a
    → leaked a.volume a.drive_block ≡ []
    → Holds m bs
    → KeepsPool bs (keep_file log n a m)
unfolding keep_file
keep_file-KeepsPool contents log n a m bs file kept h =
    rw (block-get_dos_device_name a.volume (some n.share) a.drive_block m) (
      copied_to-KeepsPool
        (complete_path log (get_dos_device_name a.volume (some n.share) a.drive_block m).name n
          a.path_block)
        _ a _ _ bs
        (copy_file-CopyHolds contents a.copy a.read a.fuel _ _ file.reads file.enough (
          create_all_directories-Holds log _ a.whole_block a.loop_blocks _ _ (
            allocated_answer-Holds a.directory_block _ _ (
              allocated_answer-Holds a.path_block _ _ (
                rw kept at
                  (get_dos_device_name-Holds a.volume (some n.share) a.drive_block m bs h)))))))

module _ (contents : List ℕ) (collects : Bool) (log : UnicodeString) (q : Request)
    (a : DeletionAnswers) (m : Pool) (bs : List ℕ) (file : ReadsFile contents a)
    (kept : leaked a.volume a.drive_block ≡ []) (h : Holds m bs) where
  pub copy_file_if_being_deleted-KeepsPool :
      (n : NameInformation) → KeepsPool bs (copy_file_if_being_deleted collects log q (some n) a m)
  unfolding copy_file_if_being_deleted
  copy_file_if_being_deleted-KeepsPool n =
      elim (Bool-cases (not a.is_directory && is_deletion q && a.is_synchronous)) [
        | inr e ↦ rw e h
        | inl e ↦ rw e (elim (Bool-cases (nt_success a.parse_status && collects)) [
          | inr d ↦ rw d h
          | inl d ↦ rw d (keep_file-KeepsPool contents log n a m bs file kept h)
        ])
      ]

  -- Without name information, only an operation that deletes nothing is safe.
  pub copy_file_if_being_deleted-KeepsPool_unset :
      is_deletion q ≡ false → KeepsPool bs (copy_file_if_being_deleted collects log q none a m)
  unfolding copy_file_if_being_deleted
  copy_file_if_being_deleted-KeepsPool_unset e = elim (Bool-cases a.is_directory) [
    | inl d ↦ rw d h
    | inr d ↦ rw (d, e) h
  ]

pub copy_file_if_being_deleted_unset :
    (collects : Bool) (log : UnicodeString) (q : Request) (a : DeletionAnswers) (m : Pool)
    → a.is_directory ≡ false
    → is_deletion q ≡ true
    → a.is_synchronous ≡ true
    → copy_file_if_being_deleted collects log q none a m ≡ none
unfolding copy_file_if_being_deleted
copy_file_if_being_deleted_unset collects log q a m file deletes waits =
    rw (file, deletes, waits) refl
