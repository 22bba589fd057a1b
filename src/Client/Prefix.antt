-- ===== src/Client/Prefix.antt =====
-- The loops of RegistryMonitor::convertRegistryObjectNameToHiveName (RegistryMonitor.cpp) and
-- FileMonitor::convertFileObjectNameToDosName (FileMonitor.cpp).
use hsn_capture_hpc_ng.Base.{
  ℕ, ◌≡◌, refl, List, [], ◌∷◌, ◌++◌, Option, none, some, if◌then◌else◌, ◌==◌, arith,
}

-- s.rfind(prefix, 0), where it finds the prefix: what stands behind it.
unfoldable pub strip_prefix : List ℕ → List ℕ → Option (List ℕ)
strip_prefix [] s = some s
strip_prefix (p ∷ ps) [] = none
strip_prefix (p ∷ ps) (c ∷ cs) = let rest = strip_prefix ps cs in if p == c then rest else none

-- The replacement of a prefix that was found, or another string.
abbrev pub replaced_or : List ℕ → List ℕ → Option (List ℕ) → List ℕ
replaced_or to other none = other
replaced_or to other (some rest) = to ++ rest

-- The first pair whose prefix is found replaces it.
unfoldable pub replace_prefix : List (List ℕ × List ℕ) → List ℕ → List ℕ
unfolding strip_prefix
replace_prefix [] s = s
replace_prefix ((prefix, to) ∷ pairs) s =
    replaced_or to (replace_prefix pairs s) (strip_prefix prefix s)

pub replace_prefix-cons :
    (prefix to : List ℕ) (pairs : List (List ℕ × List ℕ)) (s : List ℕ)
    → replace_prefix ((prefix, to) ∷ pairs) s
      ≡ replaced_or to (replace_prefix pairs s) (strip_prefix prefix s)
unfolding replace_prefix
replace_prefix-cons prefix to pairs s = refl

-- What a list of events gives, where each gives something or nothing.
abbrev pub prepend : {B : Type 0} → Option B → List B → List B
prepend none ys = ys
prepend (some y) ys = y ∷ ys

unfoldable pub filter_map : {A B : Type 0} → (A → Option B) → List A → List B
filter_map f [] = []
filter_map f (x ∷ xs) = prepend (f x) (filter_map f xs)

pub filter_map-cons :
    {A B : Type 0} (f : A → Option B) (x : A) (xs : List A)
    → filter_map f (x ∷ xs) ≡ prepend (f x) (filter_map f xs)
unfolding filter_map
filter_map-cons f x xs = refl

-- A string begins with a prefix that was put before it, and whether it begins with a longer one is a
-- matter of the rest.
pub strip_prefix-append : (prefix rest : List ℕ) → strip_prefix prefix (prefix ++ rest) ≡ some rest
unfolding strip_prefix
strip_prefix-append [] rest = refl
strip_prefix-append (p ∷ ps) rest = ground (arith, strip_prefix-append ps rest)

pub strip_prefix-past :
    (front prefix rest : List ℕ)
    → strip_prefix (front ++ prefix) (front ++ rest) ≡ strip_prefix prefix rest
unfolding strip_prefix
strip_prefix-past [] prefix rest = refl
strip_prefix-past (p ∷ ps) prefix rest = ground (arith, strip_prefix-past ps prefix rest)
