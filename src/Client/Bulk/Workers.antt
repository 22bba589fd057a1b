-- ===== src/Client/Bulk/Workers.antt =====
-- What the workers of a group's visit have to do, counted over all of them
-- (ApplicationPlugins/InternetExplorerBulk/Application_InternetExplorerBulk.cpp).
use hsn_capture_hpc_ng.Base.{
  ℕ, zero, suc, ◌+◌, ◌≤◌, ◌≡◌, refl, sym, ap, subst, List, [], ◌∷◌, Bool, true, false, not, ◌&&◌,
  Option, none, some, if◌then◌else◌, ◌==◌, length, count, arith,
}
use hsn_capture_hpc_ng.Client.Bulk.{
  Activity, idle, finishing, visiting, Worker, worker_step, activity_of, worker_at, with_worker,
  given,
}

-- The worker in an answer of worker_at.
abbrev or_worker : Worker → Option Worker → Worker
or_worker w none = w
or_worker w (some v) = v

module _ (f : Worker → ℕ) where
  abbrev pub total : List Worker → ℕ
  total [] = 0
  total (w ∷ ws) = f w + total ws

  pub total-with_worker :
      (i : ℕ) (w w' : Worker) (ws : List Worker)
      → worker_at i ws ≡ some w
      → total (with_worker i w' ws) + f w ≡ total ws + f w'
  unfolding worker_at with_worker
  total-with_worker i w w' [] h = absurd (ground arith)
  total-with_worker zero w w' (v ∷ ws) h =
      let same : f v ≡ f w = ap (λ (o : Option Worker). f (or_worker w o)) h in omega arith
  total-with_worker (suc i) w w' (v ∷ ws) h = omega (arith, total-with_worker i w w' ws h)

  pub le-total : (i : ℕ) (w : Worker) (ws : List Worker) → worker_at i ws ≡ some w → f w ≤ total ws
  unfolding worker_at
  le-total i w [] h = absurd (ground arith)
  le-total zero w (v ∷ ws) h =
      let same : f v ≡ f w = ap (λ (o : Option Worker). f (or_worker w o)) h in omega arith
  le-total (suc i) w (v ∷ ws) h = omega (arith, le-total i w ws h)

pub total-le :
    (f g : Worker → ℕ) (ws : List Worker) → ((w : Worker) → f w ≤ g w) → total f ws ≤ total g ws
total-le f g [] h = omega arith
total-le f g (w ∷ ws) h = omega (arith, h w, total-le f g ws h)

abbrev pub due : Bool → ℕ
due true = 1
due false = 0

abbrev is_finishing : Activity → ℕ
is_finishing idle = 0
is_finishing finishing = 1
is_finishing (visiting k) = 0

abbrev is_visiting : Activity → ℕ
is_visiting idle = 0
is_visiting finishing = 0
is_visiting (visiting k) = 1

abbrev is_visiting_url : ℕ → Activity → ℕ
is_visiting_url k idle = 0
is_visiting_url k finishing = 0
is_visiting_url k (visiting j) = if k == j then 1 else 0

abbrev is_given_url : ℕ → Bool → Option ℕ → ℕ
is_given_url k false d = 0
is_given_url k true none = 0
is_given_url k true (some j) = if k == j then 1 else 0

-- The visits that a worker has finished and that visitGroup has not counted.
abbrev pub pending : Worker → ℕ
pending w = due w.finished + is_finishing w.activity

-- The visits that a worker has still to finish, and how often a URL is among them.
abbrev pub active : Worker → ℕ
active w = due w.has_data + is_visiting w.activity

abbrev pub holds : ℕ → Worker → ℕ
holds k w = is_given_url k w.has_data w.data_of + is_visiting_url k w.activity

abbrev is_unmatched : Bool → Bool → Option ℕ → ℕ
is_unmatched true true (some k) = 0
is_unmatched true true none = 1
is_unmatched true false d = 1
is_unmatched false true d = 1
is_unmatched false false d = 0

abbrev is_mistaken : Bool → Bool → Option ℕ → Activity → ℕ
is_mistaken b h d idle = is_unmatched b h d
is_mistaken b h d finishing = is_unmatched b h d
is_mistaken b h d (visiting k) = if b && not h then 0 else 1

-- The flag of a worker is set as long as it has something to do, which is one URL.
abbrev pub mistaken : Worker → ℕ
mistaken w = is_mistaken w.busy w.has_data w.data_of w.activity

-- What a step of a worker does to the counts.
pub record Counts (w w' : Worker) (ks : List ℕ) : Type 0 where
  pub mistakes : mistaken w' ≡ 0
  pub actives : active w' + length ks ≡ active w
  pub pendings : pending w' ≤ pending w + length ks
  pub urls : (k : ℕ) → holds k w' + count k ks ≡ holds k w

abbrev CountsOf : Worker → Option (Worker × List ℕ) → Type 0
CountsOf w none = Unit {0}
CountsOf w (some (w', ks)) = Counts w w' ks

worker_step-counted :
    (b h f : Bool) (d : Option ℕ) (a : Activity)
    → let w : Worker = record { busy = b; data_of = d; has_data = h; finished = f; activity = a } in
      mistaken w ≡ 0 → CountsOf w (worker_step w)
unfolding worker_step activity_of
worker_step-counted true true f (some k) idle e = record {
  mistakes = refl;
  actives = refl;
  pendings = omega arith;
  urls = λ j. omega arith;
}
worker_step-counted true true f none idle e = absurd (omega arith)
worker_step-counted true false f d idle e = absurd (omega arith)
worker_step-counted false true f d idle e = absurd (omega arith)
worker_step-counted false false f d idle e = tt
worker_step-counted b h true d finishing e = record {
  mistakes = e;
  actives = omega arith;
  pendings = omega arith;
  urls = λ j. omega arith;
}
worker_step-counted b h false d finishing e = record {
  mistakes = e;
  actives = omega arith;
  pendings = omega arith;
  urls = λ j. omega arith;
}
worker_step-counted true false f d (visiting k) e = record {
  mistakes = refl;
  actives = refl;
  pendings = omega arith;
  urls = λ j. omega arith;
}
worker_step-counted true true f d (visiting k) e = absurd (omega arith)
worker_step-counted false h f d (visiting k) e = absurd (omega arith)

-- A step of a worker that is not mistaken.
pub worker_step_lem :
    (w w' : Worker) (ks : List ℕ) → worker_step w ≡ some (w', ks) → mistaken w ≡ 0 → Counts w w' ks
worker_step_lem w w' ks h e =
    subst (CountsOf w) h (worker_step-counted w.busy w.has_data w.finished w.data_of w.activity e)

-- A worker that is not busy has nothing to do, and what it is given is one URL.
pub record Gains (k : ℕ) (w : Worker) : Type 0 where
  pub mistakes : mistaken (given k w) ≡ 0
  pub actives : active (given k w) ≡ active w + 1
  pub pendings : pending (given k w) ≡ pending w
  pub urls : (j : ℕ) → holds j (given k w) ≡ holds j w + (if j == k then 1 else 0)

given-counted :
    (k : ℕ) (h f : Bool) (d : Option ℕ) (a : Activity)
    → let w : Worker = record {
      busy = false;
      data_of = d;
      has_data = h;
      finished = f;
      activity = a;
    } in
      mistaken w ≡ 0 → Gains k w
unfolding given
given-counted k false f d idle e = record {
  mistakes = refl;
  actives = refl;
  pendings = refl;
  urls = λ j. omega arith;
}
given-counted k false f d finishing e = record {
  mistakes = refl;
  actives = refl;
  pendings = refl;
  urls = λ j. omega arith;
}
given-counted k true f d idle e = absurd (omega arith)
given-counted k true f d finishing e = absurd (omega arith)
given-counted k h f d (visiting j) e = absurd (omega arith)

pub given_lem : (k : ℕ) (w : Worker) → w.busy ≡ false → mistaken w ≡ 0 → Gains k w
given_lem k w idle_worker e =
    let at_false : Worker = record w { busy = false } in
    let same : at_false ≡ w = ap (λ (b : Bool). record w { busy = b }) (sym idle_worker) in
    subst (Gains k) same (
      given-counted k w.has_data w.finished w.data_of w.activity
        (subst (λ (v : Worker). mistaken v ≡ 0) (sym same) e))

-- Without anything to do no worker holds a URL.
is_given_url-le : (k : ℕ) (h : Bool) (d : Option ℕ) → is_given_url k h d ≤ due h
is_given_url-le k false d = omega arith
is_given_url-le k true none = omega arith
is_given_url-le k true (some j) = ground arith

is_visiting_url-le : (k : ℕ) (a : Activity) → is_visiting_url k a ≤ is_visiting a
is_visiting_url-le k idle = omega arith
is_visiting_url-le k finishing = omega arith
is_visiting_url-le k (visiting j) = ground arith

pub holds-le : (k : ℕ) (w : Worker) → holds k w ≤ active w
holds-le k w =
    omega (arith, is_given_url-le k w.has_data w.data_of, is_visiting_url-le k w.activity)
