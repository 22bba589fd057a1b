-- ===== src/Client/FileMonitor/Copies.antt =====
-- FileMonitor::copyCreatedFiles and createFilePathAndCopy (FileMonitor.cpp): where the files that were
-- modified are copied to.
use hsn_capture_hpc_ng.Base.{
  ℕ, suc, ◌+◌, ◌-◌, ◌%◌, ◌<◌, ◌≡◌, refl, ap, ◌∙◌, List, [], ◌∷◌, ◌++◌, false, Option, none, some,
  if◌then◌else◌, ◌==◌, find_from, Lacks, take, drop, length, take_all, take-append, map, arith,
}
use hsn_capture_hpc_ng.Client.FileMonitor.{FileMonitor}

-- std::wstring::npos.
abbrev pub npos : ℕ
npos = 0xFFFFFFFF

-- The answer of a find, as a size_t.
abbrev pub position : Option ℕ → ℕ
position none = npos
position (some i) = i

-- find_last_of one character, where the string stands behind `index` others.
pub find_last_from : ℕ → ℕ → List ℕ → Option ℕ
find_last_from c index [] = none
find_last_from c index (x ∷ xs) = elim (find_last_from c (suc index) xs) [
  | none ↦ if c == x then some index else none
  | some i ↦ some i
]

abbrev backslash : ℕ
backslash = 0x5C

-- SHCreateDirectoryEx and CopyFile, with their arguments.
pub record Copying : Type 0 where
  pub file : List ℕ
  pub directory : List ℕ
  pub target : List ℕ

-- The paths, by the positions of the first colon and of the first and the last backslash, which wrap
-- at 2^32.
pub copying_at : List ℕ → List ℕ → ℕ → ℕ → ℕ → Copying
copying_at log path colon first last =
    let name : List ℕ = drop ((last + 1) % 0x100000000) path in
    let between : List ℕ =
      take ((last + 0x1FFFFFFFF - first) % 0x100000000) (drop ((first + 1) % 0x100000000) path) in
    let directory : List ℕ = log ++ (take colon path ++ (backslash ∷ between)) in
    record { file = path; directory = directory; target = directory ++ (backslash ∷ name) }

-- createFilePathAndCopy.
unfoldable pub create_file_path_and_copy : List ℕ → List ℕ → Copying
unfolding find_last_from copying_at
create_file_path_and_copy log path =
    copying_at log path (position (find_from b':' 0 0 path))
      (position (find_from backslash 0 0 path)) (position (find_last_from backslash 0 path))

-- copyCreatedFiles: a copy for each file, after which none is taken for modified.
pub copy_created_files : List ℕ → FileMonitor → List Copying × FileMonitor
unfolding create_file_path_and_copy
copy_created_files log s =
    (map (create_file_path_and_copy log) s.modified_files, record s { modified_files = [] })

find_last_from-nowhere : (c index : ℕ) (s : List ℕ) → Lacks c s → find_last_from c index s ≡ none
unfolding find_last_from
find_last_from-nowhere c index [] h = refl
find_last_from-nowhere c index (x ∷ s) h =
    rw (find_last_from-nowhere c (suc index) s h.1, find_last_from) (rw h.0 refl)

find_last_from-here :
    (c index : ℕ) (front back : List ℕ)
    → Lacks c back
    → find_last_from c index (front ++ c ∷ back) ≡ some (index + length front)
unfolding find_last_from
find_last_from-here c index [] back h =
    rw (find_last_from-nowhere c (suc index) back h, find_last_from) (ground arith)
find_last_from-here c index (x ∷ front) back h =
    rw (find_last_from-here c (suc index) front back h, find_last_from) (ap some (omega arith))

drop-append_past :
    (front back : List ℕ) (c : ℕ) → drop (suc (length front)) (front ++ c ∷ back) ≡ back
drop-append_past [] back c = refl
drop-append_past (x ∷ front) back c = drop-append_past front back c

-- The paths of a copy, by those of its directory and its name.
abbrev pub copying : List ℕ → List ℕ → List ℕ → Copying
copying path directory name = record {
  file = path;
  directory = directory;
  target = directory ++ backslash ∷ name;
}

module _ (log : List ℕ) (drive : ℕ) (no_colon : (b':' == drive) ≡ false)
    (no_backslash : (backslash == drive) ≡ false) (name : List ℕ)
    (plain : Lacks backslash name) where
  positions :
      (front rest : List ℕ)
      → drive ∷ b':' ∷ backslash ∷ rest ≡ front ++ backslash ∷ name
      → create_file_path_and_copy log (drive ∷ b':' ∷ backslash ∷ rest)
        ≡ copying_at log (drive ∷ b':' ∷ backslash ∷ rest) 1 2 (length front)
  unfolding create_file_path_and_copy
  positions front rest split =
      let path = drive ∷ b':' ∷ backslash ∷ rest in
      let colon : position (find_from b':' 0 0 path) ≡ 1 = rw no_colon refl in
      let first : position (find_from backslash 0 0 path) ≡ 2 = rw no_backslash refl in
      let last : position (find_last_from backslash 0 path) ≡ length front =
        ap (λ (s : List ℕ). position (find_last_from backslash 0 s)) split
        ∙ ap position (find_last_from-here backslash 0 front name plain)
        ∙ omega arith in
      ap
        (λ (n : ℕ).
          copying_at log path n (position (find_from backslash 0 0 path))
            (position (find_last_from backslash 0 path)))
        colon
      ∙ ap (λ (n : ℕ). copying_at log path 1 n (position (find_last_from backslash 0 path))) first
      ∙ ap (copying_at log path 1 2) last

  -- A file below a directory of a drive is copied to the directory of that name, below the one that has
  -- the name of the drive.
  create_file_path_and_copy-directory :
      (between : List ℕ)
      → length between + length name < 0x10000000
      → create_file_path_and_copy log (drive ∷ b':' ∷ backslash ∷ (between ++ backslash ∷ name))
        ≡ copying
            (drive ∷ b':' ∷ backslash ∷ (between ++ backslash ∷ name))
            (log ++ drive ∷ backslash ∷ between)
            name
  unfolding copying_at
  create_file_path_and_copy-directory between small =
      let front = drive ∷ b':' ∷ backslash ∷ between in
      let behind : (length front + 1) % 0x100000000 ≡ suc (length front) = omega arith in
      let size : (length front + 0x1FFFFFFFF - 2) % 0x100000000 ≡ length between = omega arith in
      positions front (between ++ backslash ∷ name) refl
      ∙ rw (behind, size)
          (rw (take-append between (backslash ∷ name), drop-append_past between name backslash)
            refl)

  -- A file in the root directory of a drive is copied into a directory that has the name of the file:
  -- the size of what stands between the first and the last backslash is -1, which takes the whole rest.
  pub create_file_path_and_copy-root :
      length name < 0x10000000
      → create_file_path_and_copy log (drive ∷ b':' ∷ backslash ∷ name)
        ≡ copying (drive ∷ b':' ∷ backslash ∷ name) (log ++ drive ∷ backslash ∷ name) name
  unfolding copying_at
  create_file_path_and_copy-root small =
      positions (drive ∷ b':' ∷ []) name refl ∙ rw (take_all 0xFFFFFFFF name (omega arith)) refl
