-- ===== src/File/Deletion/Preserving.antt =====
-- What CopyFileIfBeingDeleted (CaptureFileMonitor.c) keeps of a file that is deleted.
use hsn_capture_hpc_ng.Base.{
  ℕ, ◌+◌, ◌*◌, ◌%◌, ◌<◌, ◌≤◌, ◌≡◌, refl, ap, ◌∙◌, List, [], ◌++◌, Option, none, some, true, false,
  length, length-append, map, arith,
}
use hsn_capture_hpc_ng.Kernel.Pool.{Pool, allocated}
use hsn_capture_hpc_ng.Kernel.Status.{nt_success}
use hsn_capture_hpc_ng.Kernel.Text.{
  UnicodeString, IsBounded, unicode_string_cat, unicode_string_cat_fits, maximum_length-cat,
}
use hsn_capture_hpc_ng.File.Directories.{
  create_all_directories, parents, create_all_directories-parents,
}
use hsn_capture_hpc_ng.File.DosName.{
  VolumeIsBounded, get_dos_device_name, get_dos_device_name-IsBounded,
}
use hsn_capture_hpc_ng.File.Copy.{Copy, CopiesWhole, copy_file-CopiesWhole, written}
use hsn_capture_hpc_ng.File.Deletion.{
  Request, is_deletion, NameInformation, DeletionAnswers, Backup, built, complete_path,
  file_directory, copied_to, keep_file, copy_file_if_being_deleted,
}
use hsn_capture_hpc_ng.File.Deletion.Keeping.{ReadsFile}

-- A string of so much room that holds these characters.
abbrev IsFilled : ℕ → List ℕ → UnicodeString → Type 0
IsFilled room cs s = (s.characters ≡ cs) × (s.maximum_length ≡ room)

cat-IsFilled :
    (room : ℕ) (s : UnicodeString) (cs xs : List ℕ)
    → 2 * length cs + 2 * length xs ≤ room
    → IsFilled room cs s
    → IsFilled room (cs ++ xs) (unicode_string_cat s xs)
cat-IsFilled room s cs xs h f = (
  unicode_string_cat_fits s xs (omega (arith, ap (λ (l : List ℕ). length l) f.0, f.1))
      ∙ ap (λ (l : List ℕ). l ++ xs) f.0,
  maximum_length-cat s xs ∙ f.1,
)

module _ (log drive : UnicodeString) (n : NameInformation) (b : ℕ) (log_ok : IsBounded log)
    (drive_ok : IsBounded drive) (parent_ok : IsBounded n.parent_dir)
    (final_ok : IsBounded n.final_component)
    (small : log.maximum_length + drive.maximum_length + n.final_component.maximum_length
        + n.parent_dir.maximum_length + 2
      < 0x10000) where
  complete_path_fits :
      (complete_path log drive n (some b)).characters
      ≡ ((log.characters ++ drive.characters) ++ n.parent_dir.characters)
        ++ n.final_component.characters
  unfolding complete_path built
  complete_path_fits =
      let room : ℕ =
        (log.maximum_length + drive.maximum_length + n.final_component.maximum_length
          + n.parent_dir.maximum_length + 2)
        % 0x10000 in
      let lengths = length-append log.characters drive.characters in
      let longer = length-append (log.characters ++ drive.characters) n.parent_dir.characters in
      (cat-IsFilled room _ _ n.final_component.characters (omega (arith, lengths, longer)) (
        cat-IsFilled room _ _ n.parent_dir.characters (omega (arith, lengths)) (
          cat-IsFilled room _ _ drive.characters (omega arith) (
            cat-IsFilled room (record { characters = []; maximum_length = room }) [] log.characters
              (omega arith) (refl, refl))))).0

  file_directory_fits :
      IsFilled
        (n.parent_dir.maximum_length + drive.maximum_length + 2)
        (drive.characters ++ n.parent_dir.characters)
        (file_directory drive n (some b))
  unfolding file_directory built
  file_directory_fits =
      let room : ℕ = (n.parent_dir.maximum_length + drive.maximum_length + 2) % 0x10000 in
      let exact : room ≡ n.parent_dir.maximum_length + drive.maximum_length + 2 = omega arith in
      let filled = cat-IsFilled room _ _ n.parent_dir.characters (omega arith) (
        cat-IsFilled room (record { characters = []; maximum_length = room }) [] drive.characters
          (omega arith) (refl, refl)) in
      (filled.0, filled.1 ∙ exact)

-- A copy was made there, in directories made there, of the contents.
abbrev pub Preserves : List ℕ → List ℕ → List (List ℕ) → Option (Option Backup × Pool) → Type 0
Preserves contents path directories none = ⊥
Preserves contents path directories (some (none, m)) = ⊥
Preserves contents path directories (some (some k, m)) =
    (k.path ≡ path)
    × (k.directories ≡ directories)
    × (written k.writes ≡ contents)
    × (k.left_open ≡ 0)

copied_to-Preserves :
    (contents : List ℕ) (path : UnicodeString) (made : List (List ℕ)) (a : DeletionAnswers)
    (drive : Option ℕ) (m : Pool) (c : Option Copy) (p : List ℕ) (ds : List (List ℕ))
    → path.characters ≡ p
    → made ≡ ds
    → CopiesWhole contents m c
    → Preserves contents p ds (copied_to path made a drive c)
unfolding copied_to CopiesWhole
copied_to-Preserves contents path made a drive m none p ds e f h = h
copied_to-Preserves contents path made a drive m (some c) p ds e f h = (e, f, h.0, h.3)

-- Every call of the kernel succeeds, and every allocation is answered.
pub record IsGranted (contents : List ℕ) (a : DeletionAnswers) : Type 0 where
  pub parsed : nt_success a.parse_status ≡ true
  pub path : ℕ
  pub path_allocated : a.path_block ≡ some path
  pub directory : ℕ
  pub directory_allocated : a.directory_block ≡ some directory
  pub whole : ℕ
  pub whole_allocated : a.whole_block ≡ some whole
  pub each : ℕ → ℕ
  pub each_allocated : a.loop_blocks ≡ (λ i. some (each i))
  pub queried : nt_success a.copy.query_status ≡ true
  pub created : nt_success a.copy.create_status ≡ true
  pub referenced : nt_success a.copy.reference_status ≡ true
  pub buffer : ℕ
  pub buffer_allocated : a.copy.buffer ≡ some buffer
  pub file_read : ReadsFile contents a

-- The name of the drive.
abbrev pub drive_of : NameInformation → DeletionAnswers → Pool → UnicodeString
drive_of n a m = (get_dos_device_name a.volume (some n.share) a.drive_block m).name

-- The strings are within their buffers, which fit one string together.
pub record Fits (log drive : UnicodeString) (n : NameInformation) (a : DeletionAnswers)
    : Type 0 where
  pub log_bounded : IsBounded log
  pub volume_bounded : VolumeIsBounded a.volume
  pub parent_bounded : IsBounded n.parent_dir
  pub final_bounded : IsBounded n.final_component
  pub small :
      log.maximum_length + drive.maximum_length + n.final_component.maximum_length
        + n.parent_dir.maximum_length + 4
      < 0x10000

module _ (contents : List ℕ) (log : UnicodeString) (n : NameInformation) (a : DeletionAnswers)
    (m : Pool) (granted : IsGranted contents a) (fits : Fits log (drive_of n a m) n a) where
  drive : UnicodeString
  drive = drive_of n a m

  drive-IsBounded : IsBounded drive
  unfolding drive
  drive-IsBounded =
      get_dos_device_name-IsBounded a.volume (some n.share) a.drive_block m fits.volume_bounded

  path_kept :
      (complete_path log drive n a.path_block).characters
      ≡ ((log.characters ++ drive.characters) ++ n.parent_dir.characters)
        ++ n.final_component.characters
  unfolding drive
  path_kept = rw granted.path_allocated (
      complete_path_fits log drive n granted.path fits.log_bounded drive-IsBounded
        fits.parent_bounded fits.final_bounded (omega (arith, fits.small)))

  directories_made :
      (m1 : Pool)
      → (create_all_directories log
          (file_directory drive n a.directory_block)
          a.whole_block
          a.loop_blocks
          m1).0
        ≡ map
            (λ (p : List ℕ). log.characters ++ p)
            (parents [] (drive.characters ++ n.parent_dir.characters))
  unfolding drive
  directories_made m1 =
      let filled =
        file_directory_fits log drive n granted.directory fits.log_bounded drive-IsBounded
          fits.parent_bounded fits.final_bounded (omega (arith, fits.small)) in
      rw (granted.directory_allocated, granted.whole_allocated, granted.each_allocated)
        (create_all_directories-parents log (file_directory drive n (some granted.directory))
            granted.whole granted.each m1 fits.log_bounded
            (omega (
              arith,
              ap (λ (l : List ℕ). length l) filled.0,
              filled.1,
              length-append drive.characters n.parent_dir.characters,
              drive-IsBounded,
              fits.parent_bounded,
            ))
            (omega (arith, filled.1, fits.small))
          ∙ ap (λ (d : List ℕ). map (λ (p : List ℕ). log.characters ++ p) (parents [] d)) filled.0)

  keep_file-Preserves :
      Preserves contents
        (((log.characters ++ drive.characters) ++ n.parent_dir.characters)
          ++ n.final_component.characters)
        (map
          (λ (p : List ℕ). log.characters ++ p)
          (parents [] (drive.characters ++ n.parent_dir.characters)))
        (keep_file log n a m)
  unfolding keep_file drive
  keep_file-Preserves =
      let path : UnicodeString = complete_path log drive n a.path_block in
      let dos = get_dos_device_name a.volume (some n.share) a.drive_block m in
      let m1 : Pool = allocated a.directory_block (allocated a.path_block dos.pool) in
      let made : List (List ℕ) × Pool =
        create_all_directories log (file_directory drive n a.directory_block) a.whole_block
          a.loop_blocks m1 in
      copied_to-Preserves contents path made.0 a dos.block _ _ _ _ path_kept (directories_made m1) (
        copy_file-CopiesWhole contents a.copy granted.buffer a.read a.fuel made.1 granted.queried
          granted.created granted.referenced granted.buffer_allocated granted.file_read.reads
          granted.file_read.enough)

module _ (contents : List ℕ) (log : UnicodeString) (q : Request) (n : NameInformation)
    (a : DeletionAnswers) (m : Pool) where
  -- Where files are collected, an operation that marks a file for deletion, and is synchronous and not
  -- about a directory, has the file copied before, if the kernel grants what is asked and the strings
  -- fit: the copy stands below the log directory by the drive, the directory and the name of the file,
  -- in directories made for it, the outermost first, and holds what the file held; no handle is left
  -- open.
  pub copy_file_if_being_deleted-Preserves :
      a.is_directory ≡ false
      → is_deletion q ≡ true
      → a.is_synchronous ≡ true
      → IsGranted contents a
      → Fits log (drive_of n a m) n a
      → Preserves contents
          (((log.characters ++ (drive_of n a m).characters) ++ n.parent_dir.characters)
            ++ n.final_component.characters)
          (map
            (λ (p : List ℕ). log.characters ++ p)
            (parents [] ((drive_of n a m).characters ++ n.parent_dir.characters)))
          (copy_file_if_being_deleted true log q (some n) a m)
  unfolding copy_file_if_being_deleted drive
  copy_file_if_being_deleted-Preserves file deletes waits granted fits =
      rw (file, deletes, waits, granted.parsed)
        (keep_file-Preserves contents log n a m granted fits)
