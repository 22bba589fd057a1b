-- ===== src/Client/ProcessManager/Entries.antt =====
-- The path that ProcessManager.cpp keeps of a process that was created.
use hsn_capture_hpc_ng.Base.{
  ℕ, suc, ◌+◌, ◌≡◌, refl, ◌∙◌, List, [], ◌∷◌, Bool, true, false, ◌&&◌, Option, none, some, ◌==◌,
  arith, Option-cases, inl, inr,
}
use hsn_capture_hpc_ng.Client.Paths.{long_path, convert, begins_with_backslash}
use hsn_capture_hpc_ng.Client.Paths.Converting.{convert-convert}
use hsn_capture_hpc_ng.Client.ProcessManager.{
  Manager, Environment, Run, returns, throws, out_of_fuel, M, ◌>>=◌, ◌>>◌, pure, or_throws, lookup,
  converted, store, insert_process, manager_on_process_event, searched, get_process_path,
}
use hsn_capture_hpc_ng.Client.ProcessManager.Mapping.{lookup-insert_key}
use hsn_capture_hpc_ng.Client.ProcessManager.Search.{retry-hits}

-- An event of a process: whether it was created, its id and its path.
pub record ProcessEvent : Type 0 where
  pub created : Bool
  pub process_id : ℕ
  pub path : List ℕ

module _ (env : Environment) where
  -- ProcessManager::onProcessEvent for one event after the other.
  unfoldable pub on_process_events : List ProcessEvent → M (Unit {0})
  on_process_events [] = pure tt
  on_process_events (e ∷ es) =
      manager_on_process_event env e.created e.process_id e.path >> on_process_events es

  -- None of the events creates the process.
  abbrev pub IsNotCreated : ℕ → List ProcessEvent → Type 0
  IsNotCreated pid [] = Unit {0}
  IsNotCreated pid (e ∷ es) = ((e.created && (pid == e.process_id)) ≡ false) × IsNotCreated pid es

  module _ (pid : ℕ) (p : List ℕ) where
    -- The entry that the process has.
    abbrev Keeps : Run (Unit {0} × Manager) → Type 0
    Keeps (returns (u, t)) = lookup pid t.process_map ≡ some p
    Keeps throws = Unit {0}
    Keeps out_of_fuel = Unit {0}

    stored-Keeps :
        (q : ℕ) (o : Option (List ℕ)) (s : Manager)
        → (pid == q) ≡ false
        → lookup pid s.process_map ≡ some p
        → Keeps ((or_throws o >>= (λ x. insert_process env q x)) s)
    unfolding or_throws insert_process converted store
    stored-Keeps q none s other h = tt
    stored-Keeps q (some x) s other h =
        elim (Option-cases (convert env.query_dos_device env.get_long_path_name x)) [
          | inl e ↦ rw (e, or_throws) tt
          | inr e ↦ rw (e.1, or_throws) (lookup-insert_key pid q e.0 s.process_map ∙ rw other h)
        ]

    event-Keeps :
        (created : Bool) (q : ℕ) (path : List ℕ) (s : Manager)
        → (created && (pid == q)) ≡ false
        → lookup pid s.process_map ≡ some p
        → Keeps (manager_on_process_event env created q path s)
    unfolding manager_on_process_event converted
    event-Keeps false q path s other h = h
    event-Keeps true q path s other h =
        stored-Keeps q (convert env.query_dos_device env.get_long_path_name path) s other h

    bind-Keeps :
        (r : Run (Unit {0} × Manager)) (f : M (Unit {0}))
        → Keeps r
        → ((t : Manager) → lookup pid t.process_map ≡ some p → Keeps (f t))
        → Keeps (elim r [ returns (a, t) ↦ f t | throws ↦ throws | out_of_fuel ↦ out_of_fuel ])
    bind-Keeps (returns (a, t)) f k g = g t k
    bind-Keeps throws f k g = tt
    bind-Keeps out_of_fuel f k g = tt

    events-Keeps :
        (es : List ProcessEvent) (s : Manager)
        → IsNotCreated pid es
        → lookup pid s.process_map ≡ some p
        → Keeps (on_process_events es s)
    unfolding on_process_events
    events-Keeps [] s n h = h
    events-Keeps (e ∷ es) s n h =
        bind-Keeps (manager_on_process_event env e.created e.process_id e.path s)
          (on_process_events es) (event-Keeps e.created e.process_id e.path s n.0 h)
          (λ t k. events-Keeps es t n.1 k)

  conv : List ℕ → Option (List ℕ)
  conv = convert env.query_dos_device env.get_long_path_name

  created-Keeps :
      (pid : ℕ) (path p : List ℕ) (s : Manager)
      → conv path ≡ some p
      → conv p ≡ some p
      → Keeps pid p (manager_on_process_event env true pid path s)
  unfolding manager_on_process_event converted or_throws insert_process store conv
  created-Keeps pid path p s once twice =
      rw (once, or_throws)
        (rw (twice, or_throws) (lookup-insert_key pid pid p s.process_map ∙ ground arith))

  -- A process was created whose path is converted, where GetLongPathName gives no path with a
  -- backslash first for one that has none first; other processes may be created then, and any may end, that one included: unless the id is
  -- 4, which is the system's, the path is still the one converted, at once and as a hit of the cache.
  pub get_process_path-created :
      (pid : ℕ) (path p : List ℕ) (es : List ProcessEvent) (s u : Manager) (fuel : ℕ)
      → (pid == 4) ≡ false
      → convert env.query_dos_device env.get_long_path_name path ≡ some p
      → ((q l : List ℕ)
          → begins_with_backslash q ≡ false
          → env.get_long_path_name q ≡ long_path l
          → begins_with_backslash l ≡ false)
      → IsNotCreated pid es
      → on_process_events (record { created = true; process_id = pid; path = path } ∷ es) s
        ≡ returns (tt, u)
      → get_process_path env (suc fuel) pid u
        ≡ returns (p, record u { cache_hits = u.cache_hits + 1 })
  unfolding get_process_path searched on_process_events conv
  get_process_path-created pid path p es s u fuel other once long later ran =
      let twice = convert-convert env.query_dos_device env.get_long_path_name path p long once in
      let kept : Keeps pid p
          (on_process_events (record { created = true; process_id = pid; path = path } ∷ es) s) =
        bind-Keeps pid p (manager_on_process_event env true pid path s) (on_process_events es)
          (created-Keeps pid path p s once twice) (λ t k. events-Keeps pid p es t later k) in
      rw (other, retry-hits env 9 pid u p (rw ran at kept)) refl
