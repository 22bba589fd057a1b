-- ===== src/Base/Lists.antt =====
-- Lists measured and indexed by native numbers, under the library's names.
use Prim.Native.Nat.{ℕ, zero, suc, ◌+◌, ◌-◌, ◌≤◌}
use mathlib.Core.Path.{◌≡◌, refl, ap, sym, ◌∙◌}
use mathlib.Core.List.{List, [], ◌∷◌, ◌++◌}
use native.Mathlib.Omega.{arith}
use hsn_capture_hpc_ng.Base.Tests.{◌==◌, if◌then◌else◌}

module _ {ℓ} {A : Type ℓ} where
  abbrev pub length : List A → ℕ
  length [] = 0
  length (x ∷ xs) = suc (length xs)

  abbrev pub get_or : List A → ℕ → A → A
  get_or [] i d = d
  get_or (x ∷ xs) zero d = x
  get_or (x ∷ xs) (suc i) d = get_or xs i d

  abbrev pub take : ℕ → List A → List A
  take zero xs = []
  take (suc n) [] = []
  take (suc n) (x ∷ xs) = x ∷ take n xs

  abbrev pub drop : ℕ → List A → List A
  drop zero xs = xs
  drop (suc n) [] = []
  drop (suc n) (x ∷ xs) = drop n xs

  pub length-append : (xs ys : List A) → length (xs ++ ys) ≡ length xs + length ys
  length-append [] ys = omega arith
  length-append (x ∷ xs) ys = omega (arith, length-append xs ys)

  pub length-take : (n : ℕ) (xs : List A) → length (take n xs) ≤ n
  length-take zero xs = omega arith
  length-take (suc n) [] = omega arith
  length-take (suc n) (x ∷ xs) = omega (arith, length-take n xs)

  pub take_all : (n : ℕ) (xs : List A) → length xs ≤ n → take n xs ≡ xs
  take_all zero [] h = refl
  take_all zero (x ∷ xs) h = absurd (omega arith)
  take_all (suc n) [] h = refl
  take_all (suc n) (x ∷ xs) h = ap (◌∷◌ x) (take_all n xs (omega arith))

  pub cons_eq : {x y : A} {xs ys : List A} → x ≡ y → xs ≡ ys → x ∷ xs ≡ y ∷ ys
  cons_eq e f = cc

  take_nil : (n : ℕ) → take n [] ≡ []
  take_nil zero = refl
  take_nil (suc n) = refl

  -- A prefix is a shorter one with the part between.
  pub take-take :
      (p i : ℕ) (xs : List A) → p ≤ i → take p xs ++ take (i - p) (drop p xs) ≡ take i xs
  take-take zero i xs h = ap (λ (n : ℕ). take n xs) (omega arith)
  take-take (suc p) zero xs h = absurd (omega arith)
  take-take (suc p) (suc i) [] h = take_nil (suc i - suc p)
  take-take (suc p) (suc i) (x ∷ xs) h =
      let shorter : suc i - suc p ≡ i - p = omega arith in
      rw shorter (ap (◌∷◌ x) (take-take p i xs (omega arith)))

  pub length-drop : (n : ℕ) (xs : List A) → length (drop n xs) ≡ length xs - n
  length-drop zero xs = omega arith
  length-drop (suc n) [] = omega arith
  length-drop (suc n) (x ∷ xs) = omega (arith, length-drop n xs)

  pub length-take_full : (n : ℕ) (xs : List A) → n ≤ length xs → length (take n xs) ≡ n
  length-take_full zero xs h = refl
  length-take_full (suc n) [] h = absurd (omega arith)
  length-take_full (suc n) (x ∷ xs) h = omega (arith, length-take_full n xs (omega arith))

  pub take-drop : (n : ℕ) (xs : List A) → take n xs ++ drop n xs ≡ xs
  take-drop zero xs = refl
  take-drop (suc n) [] = refl
  take-drop (suc n) (x ∷ xs) = ap (◌∷◌ x) (take-drop n xs)

  pub drop_all : (n : ℕ) (xs : List A) → length xs ≤ n → drop n xs ≡ []
  drop_all zero [] h = refl
  drop_all zero (x ∷ xs) h = absurd (omega arith)
  drop_all (suc n) [] h = refl
  drop_all (suc n) (x ∷ xs) h = drop_all n xs (omega arith)

  pub drop-drop : (a b : ℕ) (xs : List A) → drop b (drop a xs) ≡ drop (a + b) xs
  drop-drop zero b xs = ap (λ (n : ℕ). drop n xs) (omega arith)
  drop-drop (suc a) b [] = drop_all b [] (omega arith) ∙ sym (drop_all (suc a + b) [] (omega arith))
  drop-drop (suc a) b (x ∷ xs) =
      let shift : suc (a + b) ≡ suc a + b = omega arith in
      drop-drop a b xs ∙ ap (λ (n : ℕ). drop n (x ∷ xs)) shift

  pub take-append : (front back : List A) → take (length front) (front ++ back) ≡ front
  take-append [] back = refl
  take-append (x ∷ front) back = ap (◌∷◌ x) (take-append front back)

  pub drop-append : (front back : List A) → drop (length front) (front ++ back) ≡ back
  drop-append [] back = refl
  drop-append (x ∷ front) back = drop-append front back

  pub get_or-append :
      (front : List A) (x : A) (back : List A) (d : A)
      → get_or (front ++ x ∷ back) (length front) d ≡ x
  get_or-append [] x back d = refl
  get_or-append (y ∷ front) x back d = get_or-append front x back d

module _ (a : ℕ) where
  -- How often a number stands in a list.
  abbrev pub count : List ℕ → ℕ
  count [] = 0
  count (x ∷ xs) = (if a == x then 1 else 0) + count xs

  pub count-append : (front back : List ℕ) → count (front ++ back) ≡ count front + count back
  count-append [] back = omega arith
  count-append (x ∷ front) back = omega (arith, count-append front back)

-- The list without the first occurrence of a number.
abbrev pub erase : ℕ → List ℕ → List ℕ
erase b [] = []
erase b (x ∷ xs) = if b == x then xs else x ∷ erase b xs

pub count-erase :
    (a b : ℕ) (xs : List ℕ)
    → 1 ≤ count b xs
    → count a (erase b xs) + (if a == b then 1 else 0) ≡ count a xs
count-erase a b [] h = absurd (omega arith)
count-erase a b (x ∷ xs) h = ground (arith, count-erase a b xs)
