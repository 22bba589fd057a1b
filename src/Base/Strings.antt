-- ===== src/Base/Strings.antt =====
-- Strings as lists of characters: equality, and the replacement of one character in place.
use Prim.Native.Nat.{ℕ, zero, suc, ◌+◌}
use mathlib.Core.Path.{◌≡◌, refl, ap, ◌∙◌}
use mathlib.Core.Logic.{inl, inr}
use mathlib.Core.Bool.{Bool, true, false, ◌&&◌}
use mathlib.Core.Option.{Option, none, some}
use mathlib.Core.List.{List, [], ◌∷◌, ◌++◌}
use native.Mathlib.Omega.{arith}
use hsn_capture_hpc_ng.Base.Tests.{◌==◌, Bool-cases, if◌then◌else◌}
use hsn_capture_hpc_ng.Base.Lists.{take, drop, cons_eq, length}

-- Operator== of std::wstring.
abbrev pub is_same : List ℕ → List ℕ → Bool
is_same [] [] = true
is_same [] (y ∷ ys) = false
is_same (x ∷ xs) [] = false
is_same (x ∷ xs) (y ∷ ys) = x == y && is_same xs ys

pub is_same_self : (xs : List ℕ) → is_same xs xs ≡ true
is_same_self [] = refl
is_same_self (x ∷ xs) = ground (arith, is_same_self xs)

pub is_same_eq : (xs ys : List ℕ) → is_same xs ys ≡ true → xs ≡ ys
is_same_eq [] [] h = refl
is_same_eq [] (y ∷ ys) h = ground arith
is_same_eq (x ∷ xs) [] h = ground arith
is_same_eq (x ∷ xs) (y ∷ ys) h =
    let both : (x ≡ y) × (is_same xs ys ≡ true) = ground arith in
    cons_eq both.0 (is_same_eq xs ys both.1)

-- s.find(c, skip), where s stands behind `index` characters.
abbrev pub find_from : ℕ → ℕ → ℕ → List ℕ → Option ℕ
find_from c skip index [] = none
find_from c zero index (x ∷ xs) = if c == x then some index else find_from c zero (suc index) xs
find_from c (suc skip) index (x ∷ xs) = find_from c skip (suc index) xs

-- s.replace(i, 1, to).
abbrev pub replaced_at : ℕ → List ℕ → List ℕ → List ℕ
replaced_at i to s = take i s ++ (to ++ drop (suc i) s)

pub replaced_at-append :
    (front to : List ℕ) (c : ℕ) (back : List ℕ)
    → replaced_at (length front) to (front ++ c ∷ back) ≡ front ++ (to ++ back)
replaced_at-append [] to c back = refl
replaced_at-append (x ∷ front) to c back = cons_eq refl (replaced_at-append front to c back)

-- Of two strings only one is a third.
pub is_same_other :
    (a b c : List ℕ) → is_same a c ≡ true → is_same b c ≡ false → is_same a b ≡ false
is_same_other a b c h k = elim (Bool-cases (is_same a b)) [
  | inl g ↦
      let moved : is_same a c ≡ is_same b c = ap (λ (x : List ℕ). is_same x c) (is_same_eq a b g) in
      cc
  | inr g ↦ g
]

-- No character of the string is the one given.
abbrev pub Lacks : ℕ → List ℕ → Type 0
Lacks c [] = Unit {0}
Lacks c (x ∷ xs) = ((c == x) ≡ false) × Lacks c xs

pub find_from-here :
    (c index : ℕ) (front back : List ℕ)
    → Lacks c front
    → find_from c 0 index (front ++ c ∷ back) ≡ some (index + length front)
find_from-here c index [] back h = ground arith
find_from-here c index (x ∷ front) back h =
    rw h.0 (find_from-here c (suc index) front back h.1 ∙ ap some (omega arith))

pub find_from-nowhere : (c index : ℕ) (s : List ℕ) → Lacks c s → find_from c 0 index s ≡ none
find_from-nowhere c index [] h = refl
find_from-nowhere c index (x ∷ s) h = rw h.0 (find_from-nowhere c (suc index) s h.1)

pub find_from-past :
    (c index x : ℕ) (front back : List ℕ)
    → find_from c (suc (length front)) index (front ++ x ∷ back)
      ≡ find_from c 0 (suc (index + length front)) back
find_from-past c index x [] back = ap (λ (i : ℕ). find_from c 0 i back) (omega arith)
find_from-past c index x (y ∷ front) back =
    find_from-past c (suc index) x front back ∙ ap (λ (i : ℕ). find_from c 0 i back) (omega arith)
