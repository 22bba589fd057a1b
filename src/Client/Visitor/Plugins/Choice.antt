-- ===== src/Client/Visitor/Plugins/Choice.antt =====
-- Which plugin loadClientPlugins (Visitor.cpp) leaves for an application.
use hsn_capture_hpc_ng.Base.{
  ℕ, ◌≤◌, List, [], ◌∷◌, Bool, true, false, ◌||◌, Option, none, some, if◌then◌else◌, ltb, is_same,
  is_same_eq, ◌≡◌, ◌⊎◌, refl, ap, subst, ◌∙◌, sym, inl, inr, Bool-cases, arith,
}
use hsn_capture_hpc_ng.Client.Visitor.Plugins.{
  ApplicationPlugin, get_application_plugin, erase_application, add_found, add_application,
  add_applications, load_client_plugins,
}

-- The better of the plugin that there is and another one that supports the application.
abbrev better : Option ApplicationPlugin → ApplicationPlugin → ApplicationPlugin
better none p = p
better (some q) p = if ltb q.priority p.priority then p else q

get_erased :
    (a b : List ℕ) (m : List (List ℕ × ApplicationPlugin))
    → is_same a b ≡ false
    → get_application_plugin a (erase_application b m) ≡ get_application_plugin a m
unfolding get_application_plugin erase_application
get_erased a b [] h = refl
get_erased a b ((key, p) ∷ m) h = elim (Bool-cases (is_same b key)) [
  | inl e ↦
      let other : is_same a key ≡ false = ap (is_same a) (sym (is_same_eq b key e)) ∙ h in
      rw (e, other) (get_erased a b m h)
  | inr e ↦ elim (Bool-cases (is_same a key)) [
    | inl f ↦ rw (e, f) refl
    | inr f ↦ rw (e, f) (get_erased a b m h)
  ]
]

-- What adding one application does to each.
get_add_found :
    (a b : List ℕ) (p : ApplicationPlugin) (m : List (List ℕ × ApplicationPlugin))
    (found : Option ApplicationPlugin)
    → get_application_plugin b m ≡ found
    → get_application_plugin a (add_found found p b m)
      ≡ (if is_same a b then some (better found p) else get_application_plugin a m)
unfolding add_found get_application_plugin
get_add_found a b p m none h = refl
get_add_found a b p m (some q) h = elim (Bool-cases (ltb q.priority p.priority)) [
  | inl e ↦ elim (Bool-cases (is_same a b)) [
    | inl f ↦ rw (e, f) refl
    | inr f ↦ rw (e, f) (get_erased a b m f)
  ]
  | inr e ↦ elim (Bool-cases (is_same a b)) [
    | inl f ↦
        let at : get_application_plugin a m ≡ get_application_plugin b m =
          ap (λ (x : List ℕ). get_application_plugin x m) (is_same_eq a b f) in
        rw (e, f) (at ∙ h)
    | inr f ↦ rw (e, f) refl
  ]
]

get_add :
    (a b : List ℕ) (p : ApplicationPlugin) (m : List (List ℕ × ApplicationPlugin))
    → get_application_plugin a (add_application p b m) ≡ (
        if is_same a b
        then some (better (get_application_plugin a m) p)
        else get_application_plugin a m)
unfolding add_application
get_add a b p m =
    get_add_found a b p m (get_application_plugin b m) refl ∙ elim (Bool-cases (is_same a b)) [
      | inl h ↦ rw h (
          ap (λ (x : List ℕ). some (better (get_application_plugin x m) p))
            (sym (is_same_eq a b h)))
      | inr h ↦ rw h refl
    ]

-- Whether a name is among those that a plugin supports.
abbrev pub supports : List ℕ → List (List ℕ) → Bool
supports a [] = false
supports a (name ∷ names) = is_same a name || supports a names

abbrev offered : Bool → Option ApplicationPlugin → ApplicationPlugin → Option ApplicationPlugin
offered true found p = some (better found p)
offered false found p = found

better_itself : (p : ApplicationPlugin) → better (some p) p ≡ p
better_itself p = elim (Bool-cases (ltb p.priority p.priority)) [
  | inl h ↦ rw h refl
  | inr h ↦ rw h refl
]

better_again :
    (found : Option ApplicationPlugin) (p : ApplicationPlugin)
    → better (some (better found p)) p ≡ better found p
better_again none p = better_itself p
better_again (some q) p = elim (Bool-cases (ltb q.priority p.priority)) [
  | inl h ↦ rw h (better_itself p)
  | inr h ↦ rw (h, h) refl
]

get_add_applications :
    (a : List ℕ) (p : ApplicationPlugin) (names : List (List ℕ))
    (m : List (List ℕ × ApplicationPlugin))
    → get_application_plugin a (add_applications p names m)
      ≡ offered (supports a names) (get_application_plugin a m) p
unfolding add_applications
get_add_applications a p [] m = refl
get_add_applications a p (name ∷ names) m =
    get_add_applications a p names (add_application p name m)
    ∙ rw (get_add a name p m) (elim (Bool-cases (is_same a name)) [
      | inl h ↦ elim (Bool-cases (supports a names)) [
        | inl k ↦ rw (h, k) (ap some (better_again (get_application_plugin a m) p))
        | inr k ↦ rw (h, k) refl
      ]
      | inr h ↦ rw h refl
    ])

-- One of the libraries has the plugin, and that supports the application.
abbrev pub Offers : List ℕ → ApplicationPlugin → List (Option ApplicationPlugin) → Type 0
Offers a p [] = ⊥
Offers a p (library ∷ libraries) =
    ((library ≡ some p) × (supports a p.supported ≡ true)) ⊎ Offers a p libraries

better-keeps : (q p : ApplicationPlugin) → q.priority ≤ (better (some q) p).priority
better-keeps q p = ground arith

better-takes :
    (found : Option ApplicationPlugin) (p : ApplicationPlugin)
    → p.priority ≤ (better found p).priority
better-takes none p = omega arith
better-takes (some q) p = ground arith

better-either : (q p : ApplicationPlugin) → (better (some q) p ≡ q) ⊎ (better (some q) p ≡ p)
better-either q p = elim (Bool-cases (ltb q.priority p.priority)) [
  | inl h ↦ inr (rw h refl)
  | inr h ↦ inl (rw h refl)
]

-- The plugin that loading leaves for an application has at least the priority of the one before, and
-- of each that is offered.
load_improves :
    (a : List ℕ) (libraries : List (Option ApplicationPlugin))
    (m : List (List ℕ × ApplicationPlugin)) (q : ApplicationPlugin)
    → get_application_plugin a m ≡ some q
    → (p : ApplicationPlugin) × ((get_application_plugin a (load_client_plugins libraries m)
          ≡ some p)
        × (q.priority ≤ p.priority))
unfolding load_client_plugins
load_improves a [] m q h = (q, (h, omega arith))
load_improves a (none ∷ libraries) m q h = load_improves a libraries m q h
load_improves a (some p ∷ libraries) m q h = elim (Bool-cases (supports a p.supported)) [
  | inl k ↦
      let after : get_application_plugin a (add_applications p p.supported m)
          ≡ some (better (some q) p) =
        get_add_applications a p p.supported m ∙ rw (h, k) refl in
      let (r, (found, more)) =
        load_improves a libraries (add_applications p p.supported m) (better (some q) p) after in
      (r, (found, omega (arith, better-keeps q p, more)))
  | inr k ↦
      load_improves a libraries (add_applications p p.supported m) q
        (get_add_applications a p p.supported m ∙ rw (h, k) refl)
]

some_plugin_eq : (p q : ApplicationPlugin) → some p ≡ some q → p ≡ q
some_plugin_eq p q = ap (λ (o : Option ApplicationPlugin). elim o [ none ↦ p | some x ↦ x ])

load_serves :
    (a : List ℕ) (p : ApplicationPlugin) (libraries : List (Option ApplicationPlugin))
    (m : List (List ℕ × ApplicationPlugin))
    → Offers a p libraries
    → (q : ApplicationPlugin) × ((get_application_plugin a (load_client_plugins libraries m)
          ≡ some q)
        × (p.priority ≤ q.priority))
unfolding load_client_plugins
load_serves a p [] m h = absurd h
load_serves a p (none ∷ libraries) m (inl (e, k)) = absurd cc
load_serves a p (none ∷ libraries) m (inr h) = load_serves a p libraries m h
load_serves a p (some p1 ∷ libraries) m (inr h) =
    load_serves a p libraries (add_applications p1 p1.supported m) h
load_serves a p (some p1 ∷ libraries) m (inl (e, k)) =
    let same : p ≡ p1 = some_plugin_eq p p1 (sym e) in
    let k1 : supports a p1.supported ≡ true =
      subst (λ (x : ApplicationPlugin). supports a x.supported ≡ true) same k in
    let best : ApplicationPlugin = better (get_application_plugin a m) p1 in
    let (q, (found, more)) =
      load_improves a libraries (add_applications p1 p1.supported m) best
        (get_add_applications a p1 p1.supported m ∙ rw k1 refl) in
    let priorities : p.priority ≡ p1.priority = ap (λ (x : ApplicationPlugin). x.priority) same in
    (q, (found, omega (arith, priorities, better-takes (get_application_plugin a m) p1, more)))

offered_either :
    (b : Bool) (found : Option ApplicationPlugin) (p q : ApplicationPlugin)
    → offered b found p ≡ some q
    → ((b ≡ true) × (p ≡ q)) ⊎ (found ≡ some q)
offered_either false found p q h = inr h
offered_either true none p q h = inl (refl, some_plugin_eq p q h)
offered_either true (some r) p q h = elim (better-either r p) [
  | inl e ↦ inr (ap some (sym e) ∙ h)
  | inr e ↦ inl (refl, sym e ∙ some_plugin_eq (better (some r) p) q h)
]

load_offered :
    (a : List ℕ) (q : ApplicationPlugin) (libraries : List (Option ApplicationPlugin))
    (m : List (List ℕ × ApplicationPlugin))
    → get_application_plugin a (load_client_plugins libraries m) ≡ some q
    → Offers a q libraries ⊎ (get_application_plugin a m ≡ some q)
unfolding load_client_plugins
load_offered a q [] m h = inr h
load_offered a q (none ∷ libraries) m h = elim (load_offered a q libraries m h) [
  | inl o ↦ inl (inr o)
  | inr f ↦ inr f
]
load_offered a q (some p ∷ libraries) m h =
    elim (load_offered a q libraries (add_applications p p.supported m) h) [
      | inl o ↦ inl (inr o)
      | inr f ↦
          elim (offered_either (supports a p.supported) (get_application_plugin a m) p q
            (sym (get_add_applications a p p.supported m) ∙ f)) [
              | inl (k, same) ↦ inl (
                  inl (
                    ap some same,
                    subst (λ (x : ApplicationPlugin). supports a x.supported ≡ true) same k,
                  ))
              | inr g ↦ inr g
            ]
    ]

-- After loading, an application that some plugin supports is visited by a plugin that was loaded and
-- supports it, and that has the highest priority of those that do.
pub get_application_plugin-load_client_plugins :
    (a : List ℕ) (p : ApplicationPlugin) (libraries : List (Option ApplicationPlugin))
    → Offers a p libraries
    → (q : ApplicationPlugin) × ((get_application_plugin a (load_client_plugins libraries [])
          ≡ some q)
        × (Offers a q libraries × (p.priority ≤ q.priority)))
unfolding get_application_plugin
get_application_plugin-load_client_plugins a p libraries h =
    let (q, (found, more)) = load_serves a p libraries [] h in
    elim (load_offered a q libraries [] found) [
      | inl o ↦ (q, (found, (o, more)))
      | inr bad ↦ absurd cc
    ]
