-- ===== src/Kernel/Pool.antt =====
-- The nonpaged pool, as far as the drivers can see it: which blocks are allocated. A block is
-- named by its address. ExAllocatePoolWithTag's answer is an argument of each operation (`none` is
-- NULL), and a call of ExFreePoolWithTag on a block that is not allocated is counted.
use hsn_capture_hpc_ng.Base.{
  ℕ, ◌+◌, ◌≡◌, refl, sym, Option, none, some, List, [], ◌∷◌, ◌++◌, arith, leb, if◌then◌else◌, count,
  erase, count-erase, count-append,
}

pub record Pool : Type 0 where
  pub live : List ℕ
  pub bad_frees : ℕ

abbrev pub fresh_pool : Pool
fresh_pool = record { live = []; bad_frees = 0 }

-- The pool once an allocation was answered.
pub allocated : Option ℕ → Pool → Pool
allocated none p = p
allocated (some a) p = record p { live = a ∷ p.live }

pub free : ℕ → Pool → Pool
free a p =
    if leb 1 (count a p.live)
    then record p { live = erase a p.live }
    else record p { bad_frees = p.bad_frees + 1 }

-- ExFreePoolWithTag on the answer of an allocation; of NULL it is a bad call.
pub free_answer : Option ℕ → Pool → Pool
free_answer none p = record p { bad_frees = p.bad_frees + 1 }
free_answer (some a) p = free a p

-- The usual guard: free what is not NULL.
pub free_if_allocated : Option ℕ → Pool → Pool
free_if_allocated none p = p
free_if_allocated (some a) p = free a p

-- The block of an answered allocation, as a list.
abbrev pub block_of : Option ℕ → List ℕ
block_of none = []
block_of (some a) = a ∷ []

-- The allocated blocks are exactly those listed, each as often as it is listed.
abbrev pub Holds : Pool → List ℕ → Type 0
Holds p bs = (p.bad_frees ≡ 0) × ((a : ℕ) → count a p.live ≡ count a bs)

pub allocated-Holds :
    (b : ℕ) (p : Pool) (bs : List ℕ) → Holds p bs → Holds (allocated (some b) p) (b ∷ bs)
unfolding allocated
allocated-Holds b p bs h = (h.0, λ a. omega (arith, h.1 a))

-- A block that is held can be freed, and is then held no more.
pub free-Holds : (b : ℕ) (p : Pool) (bs : List ℕ) → Holds p (b ∷ bs) → Holds (free b p) bs
unfolding free
free-Holds b p bs h =
    (ground (arith, h.1 b), λ a. ground (arith, h.1 b, h.1 a, count-erase a b p.live))

-- What is held does not depend on the order of the list.
pub Holds-reorder :
    (p : Pool) (bs cs : List ℕ) → ((a : ℕ) → count a bs ≡ count a cs) → Holds p bs → Holds p cs
Holds-reorder p bs cs same h = (h.0, λ a. omega (arith, h.1 a, same a))

-- Freed on the spot, a block leaves no trace.
pub free-allocated-Holds :
    (b : ℕ) (p : Pool) (bs : List ℕ) → Holds p bs → Holds (free b (allocated (some b) p)) bs
free-allocated-Holds b p bs h = free-Holds b (allocated (some b) p) bs (allocated-Holds b p bs h)

pub free_if_allocated-Holds :
    (o : Option ℕ) (p : Pool) (bs : List ℕ)
    → Holds p (block_of o ++ bs)
    → Holds (free_if_allocated o p) bs
unfolding free_if_allocated
free_if_allocated-Holds none p bs h = h
free_if_allocated-Holds (some b) p bs h = free-Holds b p bs h

pub free_answer-allocated-Holds :
    (b : ℕ) (p : Pool) (bs : List ℕ)
    → Holds p bs
    → Holds (free_answer (some b) (allocated (some b) p)) bs
unfolding free_answer
free_answer-allocated-Holds b p bs h = free-allocated-Holds b p bs h

count-middle : (a b : ℕ) (xs ys : List ℕ) → count a (xs ++ b ∷ ys) ≡ count a (b ∷ (xs ++ ys))
count-middle a b [] ys = refl
count-middle a b (x ∷ xs) ys = omega (arith, count-middle a b xs ys)

pub Holds-to_front :
    (b : ℕ) (p : Pool) (xs ys : List ℕ) → Holds p (xs ++ b ∷ ys) → Holds p (b ∷ (xs ++ ys))
Holds-to_front b p xs ys =
    Holds-reorder p (xs ++ b ∷ ys) (b ∷ (xs ++ ys)) (λ a. count-middle a b xs ys)

pub Holds-from_front :
    (b : ℕ) (p : Pool) (xs ys : List ℕ) → Holds p (b ∷ (xs ++ ys)) → Holds p (xs ++ b ∷ ys)
Holds-from_front b p xs ys =
    Holds-reorder p (b ∷ (xs ++ ys)) (xs ++ b ∷ ys) (λ a. sym (count-middle a b xs ys))

pub allocated_null : (p : Pool) → allocated none p ≡ p
unfolding allocated
allocated_null p = refl

pub Holds-swap :
    (b c : ℕ) (p : Pool) (xs ys : List ℕ) → Holds p (xs ++ b ∷ c ∷ ys) → Holds p (xs ++ c ∷ b ∷ ys)
Holds-swap b c p xs ys =
    Holds-reorder p (xs ++ b ∷ c ∷ ys) (xs ++ c ∷ b ∷ ys)
      (λ a. omega (arith, count-append a xs (b ∷ c ∷ ys), count-append a xs (c ∷ b ∷ ys)))

pub free_if_null : (p : Pool) → free_if_allocated none p ≡ p
unfolding free_if_allocated
free_if_null p = refl

pub free_if_block : (b : ℕ) (p : Pool) → free_if_allocated (some b) p ≡ free b p
unfolding free_if_allocated
free_if_block b p = refl

pub Holds-past :
    (b : ℕ) (p : Pool) (xs ys zs : List ℕ)
    → Holds p (xs ++ (ys ++ b ∷ zs))
    → Holds p (xs ++ b ∷ (ys ++ zs))
Holds-past b p xs ys zs = Holds-reorder p (xs ++ (ys ++ b ∷ zs)) (xs ++ b ∷ (ys ++ zs)) (λ a.
    omega (
      arith,
      count-append a xs (ys ++ b ∷ zs),
      count-append a xs (b ∷ (ys ++ zs)),
      count-middle a b ys zs,
    ))

pub Holds-from_front_past :
    (b : ℕ) (p : Pool) (xs ys zs : List ℕ)
    → Holds p (b ∷ (xs ++ (ys ++ zs)))
    → Holds p (xs ++ (ys ++ b ∷ zs))
Holds-from_front_past b p xs ys zs =
    Holds-reorder p (b ∷ (xs ++ (ys ++ zs))) (xs ++ (ys ++ b ∷ zs)) (λ a. omega (
      arith,
      count-append a xs (ys ++ zs),
      count-append a xs (ys ++ b ∷ zs),
      count-middle a b ys zs,
    ))

pub Holds-reorder_past :
    (p : Pool) (xs ys zs ws : List ℕ)
    → ((a : ℕ) → count a zs ≡ count a ws)
    → Holds p (xs ++ (ys ++ zs))
    → Holds p (xs ++ (ys ++ ws))
Holds-reorder_past p xs ys zs ws same = Holds-reorder p (xs ++ (ys ++ zs)) (xs ++ (ys ++ ws)) (λ a.
    omega (
      arith,
      same a,
      count-append a xs (ys ++ zs),
      count-append a xs (ys ++ ws),
      count-append a ys zs,
      count-append a ys ws,
    ))
