-- ===== src/File/Directories.antt =====
-- CreateAllDirectories of CaptureFileMonitor.c, which makes the directories that a copy of a deleted
-- file will be put in. Strings are without a terminator in them.
use hsn_capture_hpc_ng.Base.{
  ℕ, zero, suc, ◌+◌, ◌-◌, ◌*◌, ◌%◌, ◌≤◌, ◌<◌, ◌≡◌, refl, ap, sym, ◌∙◌, inl, inr, List, [], ◌∷◌,
  ◌++◌, Option, none, some, Bool, true, false, not, ◌&&◌, arith, if◌then◌else◌, ◌==◌, length,
  get_or, take, drop, take-take, take-append, get_or-append, length-append, append_assoc, cons_eq,
  Bool-cases, Option-cases, length-take, map, append-nil,
}
use hsn_capture_hpc_ng.Kernel.Pool.{
  Pool, Holds, allocated, free, free-allocated-Holds, free-Holds, allocated-Holds,
}
use hsn_capture_hpc_ng.Kernel.Text.{
  UnicodeString, IsBounded, unicode_string_cat, unicode_string_cat_fits, maximum_length-cat,
}

-- dirSeperator.
abbrev separator : ℕ
separator = 0x5C

-- The loop, with so many characters left: `i` and `previous` are the loop's positions, the answers
-- are those of the allocations by position. The directories that CreateADirectory is asked for, in
-- order, and the pool.
pub create_directories :
    ℕ → List ℕ → ℕ → ℕ → UnicodeString → (ℕ → Option ℕ) → Pool → List (List ℕ) × Pool
create_directories zero directory i previous total answer m = ([], m)
create_directories (suc n) directory i previous total answer m =
    let ends : Bool = get_or directory i 0 == separator && not (i == 0) in
    let longer : UnicodeString =
      unicode_string_cat total (take (i - previous) (drop previous directory)) in
    let used : Pool = elim (answer i) [ none ↦ m | some b ↦ free b (allocated (some b) m) ] in
    let rest : List (List ℕ) × Pool =
      create_directories n directory (i + 1) (if ends then i else previous)
        (if ends then longer else total) answer (if ends then used else m) in
    if ends
    then elim (answer i) [ none ↦ ([], m) | some _ ↦ (longer.characters ∷ rest.0, rest.1) ]
    else rest

-- CreateAllDirectories: the root, the directory below it, the allocation of the whole path and
-- those of the loop.
pub create_all_directories :
    UnicodeString → UnicodeString → Option ℕ → (ℕ → Option ℕ) → Pool → List (List ℕ) × Pool
create_all_directories root directory none answer m = ([], m)
create_all_directories root directory (some b) answer m =
    let empty : UnicodeString = record {
      characters = [];
      maximum_length = (root.maximum_length + directory.maximum_length + 2) % 0x10000;
    } in
    let d : List (List ℕ) × Pool =
      create_directories (length directory.characters) directory.characters 0 0
        (unicode_string_cat empty root.characters) answer (allocated (some b) m) in
    (d.0, free b d.1)

-- The parents of a path: what stands before each separator but a leading one, the shortest first.
abbrev pub parents : List ℕ → List ℕ → List (List ℕ)
parents before [] = []
parents before (c ∷ cs) =
    let rest = parents (before ++ c ∷ []) cs in
    if c == separator && not (length before == 0) then before ∷ rest else rest

module _ (root directory : List ℕ) (blocks : ℕ → ℕ) where
  -- The part of the path up to a position, behind the root, once the part from the last one on was
  -- appended.
  longer_lem :
      (i previous : ℕ) (total : UnicodeString)
      → previous ≤ i
      → i ≤ length directory
      → total.characters ≡ root ++ take previous directory
      → 2 * (length root + length directory) ≤ total.maximum_length
      → (unicode_string_cat total (take (i - previous) (drop previous directory))).characters
        ≡ root ++ take i directory
  longer_lem i previous total h within same fits =
      let part : List ℕ = take (i - previous) (drop previous directory) in
      unicode_string_cat_fits total part (
        omega (
          arith,
          ap length same,
          length-append root (take previous directory),
          length-take previous directory,
          length-take (i - previous) (drop previous directory),
        ))
      ∙ ap (λ (cs : List ℕ). cs ++ part) same
      ∙ append_assoc root (take previous directory) part
      ∙ ap (λ (cs : List ℕ). root ++ cs) (take-take previous i directory h)

  abbrev all_answered : ℕ → Option ℕ
  all_answered i = some (blocks i)

  -- One round at a separator, and one at another character.
  round_ends :
      (n i previous : ℕ) (total : UnicodeString) (m : Pool)
      → (get_or directory i 0 == separator && not (i == 0)) ≡ true
      → (create_directories (suc n) directory i previous total all_answered m).0 ≡ (
          let longer = unicode_string_cat total (take (i - previous) (drop previous directory)) in
          longer.characters
          ∷ (create_directories n directory
              (i + 1)
              i
              longer
              all_answered
              (free (blocks i) (allocated (some (blocks i)) m))).0)
  unfolding create_directories
  round_ends n i previous total m e = rw e refl

  round_skips :
      (n i previous : ℕ) (total : UnicodeString) (m : Pool)
      → (get_or directory i 0 == separator && not (i == 0)) ≡ false
      → (create_directories (suc n) directory i previous total all_answered m).0
        ≡ (create_directories n directory (i + 1) previous total all_answered m).0
  unfolding create_directories
  round_skips n i previous total m e = rw e refl

  create_directories-parents :
      (rest before : List ℕ) (i previous : ℕ) (total : UnicodeString) (m : Pool)
      → directory ≡ before ++ rest
      → i ≡ length before
      → previous ≤ i
      → total.characters ≡ root ++ take previous directory
      → 2 * (length root + length directory) ≤ total.maximum_length
      → (create_directories (length rest) directory i previous total all_answered m).0
        ≡ map (λ (p : List ℕ). root ++ p) (parents before rest)
  unfolding create_directories
  create_directories-parents [] before i previous total m whole at_i h same fits = refl
  create_directories-parents (c ∷ cs) before i previous total m whole at_i h same fits =
      let part : List ℕ = take (i - previous) (drop previous directory) in
      let longer : UnicodeString = unicode_string_cat total part in
      let within : i ≤ length directory =
        omega (arith, ap length whole, length-append before (c ∷ cs)) in
      let longer_same : longer.characters ≡ root ++ take i directory =
        longer_lem i previous total h within same fits in
      let here_c : get_or directory i 0 ≡ c = rw (whole, at_i) (get_or-append before c cs 0) in
      let whole' : directory ≡ (before ++ c ∷ []) ++ cs =
        whole ∙ sym (append_assoc before (c ∷ []) cs) in
      let at_i' : i + 1 ≡ length (before ++ c ∷ []) =
        omega (arith, length-append before (c ∷ [])) in
      let prefix : take i directory ≡ before = rw (whole, at_i) (take-append before (c ∷ cs)) in
      elim (Bool-cases (c == separator && not (length before == 0))) [
        | inl e ↦
            round_ends (length cs) i previous total m (rw (here_c, at_i) e)
            ∙ rw e (
                cons_eq (longer_same ∙ ap (λ (p : List ℕ). root ++ p) prefix) (
                  create_directories-parents cs (before ++ c ∷ []) (i + 1) i longer _ whole' at_i'
                    (omega arith) longer_same (omega (arith, fits, maximum_length-cat total part))))
        | inr e ↦
            round_skips (length cs) i previous total m (rw (here_c, at_i) e)
            ∙ rw e (
                create_directories-parents cs (before ++ c ∷ []) (i + 1) previous total m whole'
                  at_i' (omega arith) same fits)
      ]

-- Whatever allocations fail, the loop frees what it has allocated.
create_directories-Holds :
    (n : ℕ) (directory : List ℕ) (i previous : ℕ) (total : UnicodeString) (answer : ℕ → Option ℕ)
    (m : Pool) (bs : List ℕ)
    → Holds m bs
    → Holds (create_directories n directory i previous total answer m).1 bs
unfolding create_directories
create_directories-Holds zero directory i previous total answer m bs h = h
create_directories-Holds (suc n) directory i previous total answer m bs h =
    elim (Bool-cases (get_or directory i 0 == separator && not (i == 0))) [
      | inr e ↦ rw e (create_directories-Holds n directory (i + 1) previous total answer m bs h)
      | inl e ↦ elim (Option-cases (answer i)) [
        | inl none_i ↦ rw (e, none_i) h
        | inr (b, some_i) ↦
            rw (e, some_i, e, some_i)
              (create_directories-Holds n directory (i + 1) i
                (unicode_string_cat total (take (i - previous) (drop previous directory))) answer
                (free b (allocated (some b) m)) bs (free-allocated-Holds b m bs h))
      ]
    ]

-- Whatever allocations fail, the pool holds afterwards what it held before.
pub create_all_directories-Holds :
    (root directory : UnicodeString) (whole : Option ℕ) (answer : ℕ → Option ℕ) (m : Pool)
    (bs : List ℕ)
    → Holds m bs
    → Holds (create_all_directories root directory whole answer m).1 bs
unfolding create_all_directories
create_all_directories-Holds root directory none answer m bs h = h
create_all_directories-Holds root directory (some b) answer m bs h = free-Holds b _ bs (
    create_directories-Holds (length directory.characters) directory.characters 0 0 _ answer _
      (b ∷ bs) (allocated-Holds b m bs h))

-- Where every allocation is answered, the strings are within their buffers, and these are together
-- below 2^16 bytes: the directories made are the parents of the path, each behind the root, and the
-- outermost first.
pub create_all_directories-parents :
    (root directory : UnicodeString) (b : ℕ) (blocks : ℕ → ℕ) (m : Pool)
    → IsBounded root
    → IsBounded directory
    → root.maximum_length + directory.maximum_length + 2 < 0x10000
    → (create_all_directories root directory (some b) (λ i. some (blocks i)) m).0
      ≡ map (λ (p : List ℕ). root.characters ++ p) (parents [] directory.characters)
unfolding create_all_directories
create_all_directories-parents root directory b blocks m within below small =
    let room : ℕ = (root.maximum_length + directory.maximum_length + 2) % 0x10000 in
    let empty : UnicodeString = record { characters = []; maximum_length = room } in
    create_directories-parents root.characters directory.characters blocks directory.characters [] 0
      0 (unicode_string_cat empty root.characters) _ refl refl (omega arith)
      (unicode_string_cat_fits empty root.characters (omega arith)
        ∙ sym (append-nil root.characters))
      (omega (arith, maximum_length-cat empty root.characters))
