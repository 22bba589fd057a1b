-- ===== src/Client/Exclusions/Preparing.antt =====
-- Monitor::prepareStringForExclusion (Monitor.cpp), which makes a regular expression of a path.
use hsn_capture_hpc_ng.Base.{
  ℕ, zero, suc, ◌+◌, ◌*◌, ◌<◌, ◌≤◌, List, [], ◌∷◌, ◌++◌, true, false, Option, none, some,
  if◌then◌else◌, ◌==◌, find_from, replaced_at, replaced_at-append, length, length-append,
  append_assoc, append-nil, ◌≡◌, refl, sym, ap, ◌∙◌, inl, inr, Bool-cases, arith,
}

-- One of the two loops, on fuel: from one find to the next. `none` if the fuel runs out.
pub replace_loop : ℕ → ℕ → List ℕ → List ℕ → ℕ → Option (List ℕ)
replace_loop zero from to s offset = none
replace_loop (suc fuel) from to s offset = elim (find_from from offset 0 s) [
  | none ↦ some s
  | some i ↦ replace_loop fuel from to (replaced_at i to s) (i + length to)
]

-- prepareStringForExclusion: backslashes first, then dots.
unfoldable pub prepare_string_for_exclusion : ℕ → List ℕ → Option (List ℕ)
unfolding replace_loop
prepare_string_for_exclusion fuel s = elim (replace_loop fuel 0x5C (0x5C ∷ 0x5C ∷ []) s 0) [
  | none ↦ none
  | some t ↦ replace_loop fuel b'.' (0x5C ∷ b'.' ∷ []) t 0
]

-- A character replaced in one pass.
abbrev pub substituted : ℕ → List ℕ → List ℕ → List ℕ
substituted from to [] = []
substituted from to (x ∷ xs) = (if from == x then to else x ∷ []) ++ substituted from to xs

find_from_here :
    (c x index : ℕ) (front back : List ℕ)
    → (c == x) ≡ true
    → find_from c (length front) index (front ++ x ∷ back) ≡ some (index + length front)
find_from_here c x index [] back h = let at : index ≡ index + 0 = omega arith in rw h (ap some at)
find_from_here c x index (y ∷ front) back h =
    let at : suc index + length front ≡ index + suc (length front) = omega arith in
    find_from_here c x (suc index) front back h ∙ ap some at

find_from_later :
    (c x index : ℕ) (front back : List ℕ)
    → (c == x) ≡ false
    → find_from c (length front) index (front ++ x ∷ back)
      ≡ find_from c (length (front ++ (x ∷ []))) index ((front ++ (x ∷ [])) ++ back)
find_from_later c x index [] [] h = rw h refl
find_from_later c x index [] (y ∷ back) h = rw h refl
find_from_later c x index (y ∷ front) back h = find_from_later c x (suc index) front back h

find_from_end : (c index : ℕ) (front : List ℕ) → find_from c (length front) index front ≡ none
find_from_end c index [] = refl
find_from_end c index (x ∷ front) = find_from_end c (suc index) front

module _ (from : ℕ) (to : List ℕ) where
  -- A round of the loop, by what was found.
  abbrev replace_step : ℕ → List ℕ → Option ℕ → Option (List ℕ)
  replace_step fuel s found = elim found [
    | none ↦ some s
    | some i ↦ replace_loop fuel from to (replaced_at i to s) (i + length to)
  ]

  -- A character that is not looked for is passed over.
  replace_loop_later :
      (x : ℕ) (front back : List ℕ) (fuel : ℕ)
      → (from == x) ≡ false
      → replace_loop (suc fuel) from to (front ++ x ∷ back) (length front)
        ≡ replace_loop (suc fuel) from to ((front ++ (x ∷ [])) ++ back) (length (front ++ (x ∷ [])))
  unfolding replace_loop
  replace_loop_later x front back fuel h =
      let same : front ++ x ∷ back ≡ (front ++ (x ∷ [])) ++ back =
        sym (append_assoc front (x ∷ []) back) in
      ap (replace_step fuel (front ++ x ∷ back)) (find_from_later from x 0 front back h)
      ∙ ap
          (λ (t : List ℕ).
            replace_step fuel t
              (find_from from (length (front ++ (x ∷ []))) 0 ((front ++ (x ∷ [])) ++ back)))
          same

  -- On fuel for each character that is left, the loop does what the pass does.
  replace_loop-append :
      (xs front : List ℕ) (fuel : ℕ)
      → length xs < fuel
      → replace_loop fuel from to (front ++ xs) (length front)
        ≡ some (front ++ substituted from to xs)
  unfolding replace_loop
  replace_loop-append xs front zero h = absurd (omega arith)
  replace_loop-append [] front (suc fuel) h =
      let stopped : replace_loop (suc fuel) from to front (length front) ≡ some front =
        rw (find_from_end from 0 front, replace_loop) refl in
      rw (append-nil front) stopped
  replace_loop-append (x ∷ xs) front (suc fuel) h = elim (Bool-cases (from == x)) [
    | inl e ↦
        let text : replaced_at (length front) to (front ++ x ∷ xs) ≡ (front ++ to) ++ xs =
          replaced_at-append front to x xs ∙ sym (append_assoc front to xs) in
        let next : length front + length to ≡ length (front ++ to) = sym (length-append front to) in
        let at : 0 + length front ≡ length front = omega arith in
        let found : find_from from (length front) 0 (front ++ x ∷ xs) ≡ some (length front) =
          find_from_here from x 0 front xs e ∙ ap some at in
        rw (e, found, replace_loop)
          (rw (text, next)
            (replace_loop-append xs (front ++ to) fuel (omega arith)
              ∙ ap some (append_assoc front to (substituted from to xs))))
    | inr e ↦
        rw (e, replace_loop_later x front xs fuel e)
          (replace_loop-append xs (front ++ (x ∷ [])) (suc fuel) (omega arith)
            ∙ ap some (append_assoc front (x ∷ []) (substituted from to xs)))
  ]

-- Both passes at once.
abbrev pub escaped : List ℕ → List ℕ
escaped [] = []
escaped (x ∷ xs) =
    (if 0x5C == x then 0x5C ∷ 0x5C ∷ [] else (if b'.' == x then 0x5C ∷ b'.' ∷ [] else x ∷ []))
    ++ escaped xs

substituted-substituted :
    (xs : List ℕ)
    → substituted b'.' (0x5C ∷ b'.' ∷ []) (substituted 0x5C (0x5C ∷ 0x5C ∷ []) xs) ≡ escaped xs
substituted-substituted [] = refl
substituted-substituted (x ∷ xs) = elim (Bool-cases (0x5C == x)) [
  | inl h ↦ rw h (ap (λ (ys : List ℕ). 0x5C ∷ 0x5C ∷ ys) (substituted-substituted xs))
  | inr h ↦
      rw h (ap (◌++◌ (if b'.' == x then 0x5C ∷ b'.' ∷ [] else x ∷ [])) (substituted-substituted xs))
]

length-substituted :
    (c : ℕ) (xs : List ℕ) → length (substituted c (0x5C ∷ 0x5C ∷ []) xs) ≤ 2 * length xs
length-substituted c [] = omega arith
length-substituted c (x ∷ xs) = ground (arith, length-substituted c xs)

-- The two loops end, on fuel for more than twice the characters: each backslash and each dot of the
-- path stands behind a backslash then, and everything else is as it was.
pub prepare_string_for_exclusion_escapes :
    (fuel : ℕ) (s : List ℕ)
    → 2 * length s < fuel
    → prepare_string_for_exclusion fuel s ≡ some (escaped s)
unfolding prepare_string_for_exclusion
prepare_string_for_exclusion_escapes fuel s h =
    let doubled : List ℕ = substituted 0x5C (0x5C ∷ 0x5C ∷ []) s in
    let first : replace_loop fuel 0x5C (0x5C ∷ 0x5C ∷ []) s 0 ≡ some doubled =
      replace_loop-append 0x5C (0x5C ∷ 0x5C ∷ []) s [] fuel (omega arith) in
    let second : replace_loop fuel b'.' (0x5C ∷ b'.' ∷ []) doubled 0
        ≡ some (substituted b'.' (0x5C ∷ b'.' ∷ []) doubled) =
      replace_loop-append b'.' (0x5C ∷ b'.' ∷ []) doubled [] fuel
        (omega (arith, length-substituted 0x5C s)) in
    rw (first, prepare_string_for_exclusion) (second ∙ ap some (substituted-substituted s))
