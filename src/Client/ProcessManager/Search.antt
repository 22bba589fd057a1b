-- ===== src/Client/ProcessManager/Search.antt =====
-- ProcessManager::getProcessPath (ProcessManager.cpp) and the monitor call each other: that they end.
use hsn_capture_hpc_ng.Base.{
  ℕ, zero, suc, ◌+◌, ◌<◌, ◌≡◌, refl, List, Bool, true, false, Option, none, some, ◌==◌, arith,
  Bool-cases, Option-cases, inl, inr,
}
use hsn_capture_hpc_ng.Client.Paths.{convert}
use hsn_capture_hpc_ng.Client.ProcessManager.{
  Report, Manager, Image, unopened, unnamed, image, Environment, Run, returns, throws, out_of_fuel,
  M, ◌>>=◌, ◌>>◌, pure, or_throws, lookup, insert_key, converted, store, insert_process,
  manager_on_process_event, get_parent_process_id, wait, retry, signal, on_process_event, announce,
  failed, missed, searched, get_process_path, unknown, module_name,
}
use hsn_capture_hpc_ng.Client.ProcessManager.Mapping.{
  lookup-insert_key, is_missing, missing, contains, Grows, Grows-insert_key, Grows-insert_all,
  missing-Grows, missing-Grows_new,
}

-- The call has not run out of fuel, and no process has lost its entry.
abbrev pub Ends : {A : Type 0} → Manager → Run (A × Manager) → Type 0
Ends s (returns (a, t)) = Grows s.process_map t.process_map
Ends s throws = Unit {0}
Ends s out_of_fuel = ⊥

Ends-from :
    {A : Type 0} (s t : Manager) (r : Run (A × Manager))
    → Grows s.process_map t.process_map
    → Ends t r
    → Ends s r
Ends-from s t (returns (a, u)) g h = λ j e. g j (h j e)
Ends-from s t throws g h = tt
Ends-from s t out_of_fuel g h = h

module _ (known : List ℕ) (bound : ℕ) where
  -- So does an action wherever fewer of the known processes lack an entry.
  pub record Safe {A : Type 0} (m : M A) : Type 0 where
    pub at : (s : Manager) → missing known s.process_map < bound → Ends s (m s)

  bind-Ends :
      {A B : Type 0} (s : Manager) (r : Run (A × Manager)) (f : A → M B)
      → missing known s.process_map < bound
      → Ends s r
      → ((a : A) → Safe (f a))
      → Ends {A = B} s
          (elim r [ returns (a, t) ↦ f a t | throws ↦ throws | out_of_fuel ↦ out_of_fuel ])
  bind-Ends s (returns (a, t)) f small h g =
      Ends-from s t (f a t) h
        ((g a).at t (omega (arith, missing-Grows known s.process_map t.process_map h)))
  bind-Ends s throws f small h g = tt
  bind-Ends s out_of_fuel f small h g = h

  pub >>=-Safe :
      {A B : Type 0} (m : M A) (f : A → M B) → Safe m → ((a : A) → Safe (f a)) → Safe (m >>= f)
  >>=-Safe m f h g = record { at = λ s small. bind-Ends s (m s) f small (h.at s small) g }

  pub pure-Safe : {A : Type 0} (a : A) → Safe (pure a)
  pure-Safe a = record { at = λ s small j e. e }

  module _ (env : Environment) where
    or_throws-Safe : (o : Option (List ℕ)) → Safe (or_throws o)
    unfolding or_throws
    or_throws-Safe none = record { at = λ s small. tt }
    or_throws-Safe (some p) = record { at = λ s small j e. e }

    converted-Safe : (path : List ℕ) → Safe (converted env path)
    unfolding converted
    converted-Safe path = or_throws-Safe (convert env.query_dos_device env.get_long_path_name path)

    store-Safe : (pid : ℕ) (path : List ℕ) → Safe (store env pid path)
    unfolding store
    store-Safe pid path = record { at = λ s small. Grows-insert_key pid path s.process_map }

    pub insert_process-Safe : (pid : ℕ) (path : List ℕ) → Safe (insert_process env pid path)
    unfolding insert_process
    insert_process-Safe pid path = >>=-Safe _ _ (converted-Safe path) (λ p. store-Safe pid p)

    manager_on_process_event-Safe :
        (created : Bool) (pid : ℕ) (path : List ℕ)
        → Safe (manager_on_process_event env created pid path)
    unfolding manager_on_process_event
    manager_on_process_event-Safe true pid path =
        >>=-Safe _ _ (converted-Safe path) (λ p. insert_process-Safe pid p)
    manager_on_process_event-Safe false pid path = pure-Safe tt

    signal-Safe : (name parent : List ℕ) (r : Report) → Safe (signal env name parent r)
    unfolding signal
    signal-Safe name parent r = record { at = λ s small j h. h }

    failed-Safe : Safe (failed env)
    unfolding failed
    failed-Safe = record {
      at = λ s small.
          (converted-Safe unknown).at (record s { cache_failures = s.cache_failures + 1 }) small;
    }

    module _ (again : ℕ → M (List ℕ)) (ends : (pid : ℕ) → Safe (again pid)) where
      pub on_process_event-Safe :
          (created : Bool) (pid parent : ℕ) (time : List ℕ)
          → Safe (on_process_event env again created pid parent time)
      unfolding on_process_event
      on_process_event-Safe created pid parent time = >>=-Safe _ _ (ends pid) (λ path.
          >>=-Safe _ _ (manager_on_process_event-Safe created pid path) (λ _.
            >>=-Safe _ _ (ends pid) (λ named. >>=-Safe _ _ (ends parent) (λ parent_named.
              >>=-Safe _ _ (ends parent) (λ parent_path.
                signal-Safe (module_name env named) (module_name env parent_named) _)))))

      announce-Safe : (pid : ℕ) → Safe (announce env again pid)
      unfolding announce
      announce-Safe pid = elim (Bool-cases env.has_monitor) [
        | inl e ↦
            rw e (on_process_event-Safe true pid (get_parent_process_id env pid) env.local_time)
        | inr e ↦ rw e (pure-Safe tt)
      ]

      then_announce-Safe :
          (pid : ℕ) (path : List ℕ) → Safe (announce env again pid >> converted env path)
      then_announce-Safe pid path = >>=-Safe _ _ (announce-Safe pid) (λ _. converted-Safe path)

module _ (env : Environment) where
  retry-waits :
      (n pid : ℕ) (s : Manager)
      → lookup pid s.process_map ≡ none
      → retry env (suc n) pid s ≡ retry env n pid (wait env s)
  unfolding retry
  retry-waits n pid s e = rw (e, retry) refl

  pub retry-hits :
      (n pid : ℕ) (s : Manager) (p : List ℕ)
      → lookup pid s.process_map ≡ some p
      → retry env (suc n) pid s ≡ (some p, record s { cache_hits = s.cache_hits + 1 })
  unfolding retry
  retry-hits n pid s p e = rw (e, retry) refl

  -- The loop waits, and other threads only add entries.
  retry-Grows : (n pid : ℕ) (s : Manager) → Grows s.process_map (retry env n pid s).1.process_map
  unfolding wait
  retry-Grows zero pid s = unfold retry in (λ j h. h)
  retry-Grows (suc n) pid s = elim (Option-cases (lookup pid s.process_map)) [
    | inl e ↦ rw (retry-waits n pid s e) (λ j h.
        Grows-insert_all (env.meanwhile s.waits) s.process_map j
          (retry-Grows n pid (wait env s) j h))
    | inr e ↦ rw (retry-hits n pid s e.0 e.1) (λ j h. h)
  ]

  -- What it does not find was missing at first.
  retry_missing :
      (n pid : ℕ) (s : Manager)
      → (retry env (suc n) pid s).0 ≡ none
      → is_missing pid s.process_map ≡ true
  unfolding retry
  retry_missing n pid s h = elim (Option-cases (lookup pid s.process_map)) [
    | inl e ↦ rw (e, is_missing) refl
    | inr e ↦ absurd (ground (arith, h, e.1))
  ]

  module _ (known : List ℕ) (bound : ℕ) where
    -- The process was missing before, and is one of those known.
    stored-Ends :
        {A : Type 0} (pid : ℕ) (o : Option (List ℕ)) (k : M A) (s t : Manager)
        → Grows s.process_map t.process_map
        → is_missing pid s.process_map ≡ true
        → contains pid known ≡ true
        → missing known s.process_map < suc bound
        → Safe known bound k
        → Ends s (((or_throws o >>= (λ p. store env pid p)) >> k) t)
    unfolding or_throws store
    stored-Ends pid none k s t g m c small h = tt
    stored-Ends pid (some p) k s t g m c small h =
        let u : Manager = record t {
          process_map = insert_key pid p t.process_map;
          process_created = true;
        } in
        let grown : Grows s.process_map u.process_map =
          λ j e. g j (Grows-insert_key pid p t.process_map j e) in
        let there : is_missing pid u.process_map ≡ false =
          ground (arith, lookup-insert_key pid pid p t.process_map) in
        Ends-from s u (k u) grown (
          h.at u (
            omega (arith, missing-Grows_new known pid s.process_map u.process_map c m there grown)))

    failed-Ends :
        (s t : Manager)
        → Grows s.process_map t.process_map
        → missing known s.process_map < suc bound
        → Ends s (failed env t)
    failed-Ends s t g small = Ends-from s t (failed env t) g (
        (failed-Safe known (suc bound) env).at t
          (omega (arith, missing-Grows known s.process_map t.process_map g)))

    module _ (again : ℕ → M (List ℕ)) (ends : (pid : ℕ) → Safe known bound (again pid))
        (opens : (pid : ℕ) (p : List ℕ)
          → env.image_of pid ≡ image p
          → contains pid known ≡ true) where
      missed-Ends :
          (pid : ℕ) (answer : Image) (s t : Manager)
          → env.image_of pid ≡ answer
          → Grows s.process_map t.process_map
          → is_missing pid s.process_map ≡ true
          → missing known s.process_map < suc bound
          → Ends s (missed env again pid answer t)
      unfolding missed insert_process converted failed or_throws
      missed-Ends pid unopened s t e g m small = failed-Ends s t g small
      missed-Ends pid unnamed s t e g m small = failed-Ends s t g small
      missed-Ends pid (image path) s t e g m small =
          stored-Ends pid (convert env.query_dos_device env.get_long_path_name path) _ s t g m
            (opens pid path e) small (then_announce-Safe known bound env again ends pid path)

  searched-Ends :
      (known : List ℕ) (bound : ℕ) (again : ℕ → M (List ℕ))
      → ((pid : ℕ) → Safe known bound (again pid))
      → ((pid : ℕ) (p : List ℕ) → env.image_of pid ≡ image p → contains pid known ≡ true)
      → (pid : ℕ) (s : Manager) (r : Option (List ℕ) × Manager)
      → Grows s.process_map r.1.process_map
      → (r.0 ≡ none → is_missing pid s.process_map ≡ true)
      → missing known s.process_map < suc bound
      → Ends s (searched env again pid r)
  unfolding searched
  searched-Ends known bound again ends opens pid s (some p, t) g m small = g
  searched-Ends known bound again ends opens pid s (none, t) g m small =
      missed-Ends known bound again ends opens pid (env.image_of pid) s
        (record t { cache_misses = t.cache_misses + 1 }) refl g (m refl) small

  -- Each process that can be opened is one of those known: then getProcessPath ends, on fuel for more
  -- than the known processes that have no entry, though it calls the monitor for a process that it
  -- finds, and the monitor calls it for that process and its parent: the call throws or returns, and no
  -- process has lost its entry.
  pub get_process_path-Ends :
      (known : List ℕ)
      → ((pid : ℕ) (p : List ℕ) → env.image_of pid ≡ image p → contains pid known ≡ true)
      → (fuel pid : ℕ) (s : Manager) → missing known s.process_map < fuel
      → Ends s (get_process_path env fuel pid s)
  unfolding get_process_path
  get_process_path-Ends known opens zero pid s small = absurd (omega arith)
  get_process_path-Ends known opens (suc fuel) pid s small = elim (Bool-cases (pid == 4)) [
    | inl e ↦ rw e (λ j h. h)
    | inr e ↦ rw e (
        searched-Ends known fuel (get_process_path env fuel)
          (λ q. record { at = λ t h. get_process_path-Ends known opens fuel q t h }) opens pid s
          (retry env 10 pid s) (retry-Grows 10 pid s) (retry_missing 9 pid s) small)
  ]
