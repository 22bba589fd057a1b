-- ===== src/Client/ProcessManager/Mapping.antt =====
-- The laws of processMap (ProcessManager.cpp), and how many of the known processes it lacks.
use hsn_capture_hpc_ng.Base.{
  ℕ, ◌+◌, ◌≤◌, ◌<◌, ◌≡◌, List, [], ◌∷◌, Bool, true, false, ◌||◌, none, some, if◌then◌else◌, ◌==◌,
  arith, Bool-cases, inl, inr, ==_iff, subst,
}
use hsn_capture_hpc_ng.Client.ProcessManager.{lookup, erase_key, insert_key, insert_all}

lookup-erase_key :
    (j k : ℕ) (m : List (ℕ × List ℕ))
    → lookup j (erase_key k m) ≡ (if j == k then none else lookup j m)
unfolding lookup erase_key
lookup-erase_key j k [] = ground arith
lookup-erase_key j k ((i, p) ∷ m) = ground (arith, lookup-erase_key j k m)

pub lookup-insert_key :
    (j k : ℕ) (p : List ℕ) (m : List (ℕ × List ℕ))
    → lookup j (insert_key k p m) ≡ (if j == k then some p else lookup j m)
unfolding lookup insert_key
lookup-insert_key j k p m = ground (arith, lookup-erase_key j k m)

abbrev pub is_missing : ℕ → List (ℕ × List ℕ) → Bool
is_missing k m = elim (lookup k m) [ none ↦ true | some p ↦ false ]

-- How many of the processes have no entry.
unfoldable pub missing : List ℕ → List (ℕ × List ℕ) → ℕ
missing [] m = 0
missing (k ∷ ks) m = (if is_missing k m then 1 else 0) + missing ks m

abbrev pub contains : ℕ → List ℕ → Bool
contains k [] = false
contains k (j ∷ js) = k == j || contains k js

-- No process loses its entry from one map to the next.
abbrev pub Grows : List (ℕ × List ℕ) → List (ℕ × List ℕ) → Type 0
Grows m n = (j : ℕ) → is_missing j n ≡ true → is_missing j m ≡ true

pub Grows-insert_key : (k : ℕ) (p : List ℕ) (m : List (ℕ × List ℕ)) → Grows m (insert_key k p m)
Grows-insert_key k p m j h = ground (arith, lookup-insert_key j k p m)

pub Grows-insert_all : (es m : List (ℕ × List ℕ)) → Grows m (insert_all es m)
unfolding insert_all
Grows-insert_all [] m j h = h
Grows-insert_all ((k, p) ∷ es) m j h =
    Grows-insert_key k p m j (Grows-insert_all es (insert_key k p m) j h)

-- Fewer entries are missing then, and still fewer where one that was missing is there.
pub missing-Grows :
    (known : List ℕ) (m n : List (ℕ × List ℕ)) → Grows m n → missing known n ≤ missing known m
unfolding missing
missing-Grows [] m n g = omega arith
missing-Grows (j ∷ js) m n g = elim (Bool-cases (is_missing j n)) [
  | inl e ↦ rw (e, g j e) (omega (arith, missing-Grows js m n g))
  | inr e ↦ rw e (omega (arith, missing-Grows js m n g))
]

pub missing-Grows_new :
    (known : List ℕ) (k : ℕ) (m n : List (ℕ × List ℕ))
    → contains k known ≡ true
    → is_missing k m ≡ true
    → is_missing k n ≡ false
    → Grows m n
    → missing known n < missing known m
unfolding missing
missing-Grows_new [] k m n c before after g = ground arith
missing-Grows_new (j ∷ js) k m n c before after g = elim (Bool-cases (k == j)) [
  | inl e ↦
      let same : k ≡ j = (==_iff k j).0 e in
      rw
        (
          subst (λ (x : ℕ). is_missing x m ≡ true) same before,
          subst (λ (x : ℕ). is_missing x n ≡ false) same after,
        )
        (omega (arith, missing-Grows js m n g))
  | inr e ↦
      let rest = missing-Grows_new js k m n (rw e at c) before after g in
      elim (Bool-cases (is_missing j n)) [
        | inl f ↦ rw (f, g j f) (omega (arith, rest))
        | inr f ↦ rw f (omega (arith, rest))
      ]
]
