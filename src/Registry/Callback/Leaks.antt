-- ===== src/Registry/Callback/Leaks.antt =====
-- Where RegistryCallback goes wrong: all of it is in the case RegNtPreSetValueKey.
use hsn_capture_hpc_ng.Base.{
  ℕ, ◌<◌, ◌≡◌, refl, ap, subst, ◌⊎◌, inl, inr, List, [], ◌∷◌, ◌++◌, Option, none, some, true, false,
  arith, if◌then◌else◌,
}
use hsn_capture_hpc_ng.Kernel.Pool.{
  Pool, Holds, allocated, allocated-Holds, allocated_null, Holds-from_front, Holds-swap,
}
use hsn_capture_hpc_ng.Kernel.Text.{UnicodeString}
use hsn_capture_hpc_ng.EventQueue.Clearing.{blocks}
use hsn_capture_hpc_ng.Registry.{Registry, pre_set_value_key}
use hsn_capture_hpc_ng.Registry.Invariant.{IsValid}
use hsn_capture_hpc_ng.Registry.Callback.{
  NameResult, KeyInformation, Captured, CallbackAnswers, names_value, store_data, capture,
  max_path_bytes, get_registry_object_complete_name, is_copy_safe, deliver_event, with_path,
  registry_callback,
}
use hsn_capture_hpc_ng.Registry.Callback.Capture.{Named, get_registry_object_complete_name-Named}
use hsn_capture_hpc_ng.Registry.Callback.Outcome.{Returns, freed_path}

-- The path as it is when the event is looked at.
abbrev pub empty_path : UnicodeString
empty_path = record { characters = []; maximum_length = max_path_bytes }

-- The lookup of the name for a value that is set.
abbrev pub value_lookup : KeyInformation → CallbackAnswers → Registry → NameResult
value_lookup k a r =
    get_registry_object_complete_name empty_path none k.object (allocated a.path_block r.pool)

-- A value is set whose key and name are found, without an exception on the way.
pub record SetsValue (k : KeyInformation) (a : CallbackAnswers) (r : Registry) : Type 0 where
  pub readable : k.unreadable ≡ false
  pub name_block : ℕ
  pub name_answered : k.object.name_block ≡ some name_block
  pub name_calm : k.object.raises ≡ false
  pub named : names_value k (value_lookup k a r) ≡ true

-- What happens to the event behind the switch.
abbrev behind_switch : CallbackAnswers → Registry → Captured → Option Registry
behind_switch a r c =
    if c.is_valid then deliver_event pre_set_value_key a c r else some (record r { pool = c.pool })

-- The callback of such an event, from behind the switch on.
set_value_lem :
    (k : KeyInformation) (a : CallbackAnswers) (r : Registry)
    → SetsValue k a r
    → registry_callback pre_set_value_key k a r ≡ (
        let c = store_data k (value_lookup k a r) in
        with_path a.path_block r (
          if c.is_valid
          then deliver_event pre_set_value_key a c r
          else some (record r { pool = c.pool })))
unfolding registry_callback capture
set_value_lem k a r s = simp (s.readable, s.named)

module _ (others : List ℕ) (k : KeyInformation) (a : CallbackAnswers) (r : Registry)
    (s : SetsValue k a r) (d : ℕ) (answered : k.data_block ≡ some d) where
  dropped :
      a.event_block ≡ none
      → (c : Captured) → deliver_event pre_set_value_key a c r ≡ some (record r { pool = c.pool })
  unfolding deliver_event
  dropped full c =
      rw (full, deliver_event)
        (ap (λ (m : Pool). some (record r { pool = m })) (rw full (allocated_null c.pool)))

  -- The block of the value's data is never freed, and the rest is as it should be: if copying the
  -- data raises an exception, or if the event's own allocation fails.
  leaks_before :
      (b : ℕ)
      → a.path_block ≡ some b
      → (k.data_raises ≡ true) ⊎ ((k.data_raises ≡ false) × (a.event_block ≡ none))
      → IsValid others r
      → (let c = store_data k (value_lookup k a r) in
          Returns (b ∷ d ∷ others) (
            if c.is_valid
            then deliver_event pre_set_value_key a c r
            else some (record r { pool = c.pool })))
  unfolding store_data
  leaks_before b e fault v =
      let q : List ℕ = blocks r.queued_registry_events in
      let h : Holds (allocated a.path_block r.pool) (q ++ b ∷ others) =
        Holds-from_front b _ q others (simp e (allocated-Holds b r.pool (q ++ others) v.owned)) in
      let n : Named (q ++ b ∷ others) (value_lookup k a r) =
        get_registry_object_complete_name-Named k.object s.name_block s.name_answered s.name_calm
          empty_path none (allocated a.path_block r.pool) (q ++ b ∷ others) (omega arith) refl h in
      let m : Pool = allocated (some d) (value_lookup k a r).pool in
      let held : Holds m (q ++ b ∷ d ∷ others) = Holds-swap d b m q others (
        Holds-from_front d m q (b ∷ others)
          (allocated-Holds d (value_lookup k a r).pool (q ++ b ∷ others) n.held)) in
      elim fault [
        | inl raises ↦
            simp (answered, raises) (record { owned = held; well_formed = v.well_formed })
        | inr (calm, full) ↦
            simp (answered, calm)
              (rw (dropped full _) (record { owned = held; well_formed = v.well_formed }))
      ]

  -- A value is set whose key and name are found, and its data gets a block: if copying the data
  -- raises an exception, or if the event's own allocation fails, a valid driver returns with the
  -- data's block still allocated, besides what it holds.
  pub registry_callback_leaks :
      (b : ℕ)
      → a.path_block ≡ some b
      → (k.data_raises ≡ true) ⊎ ((k.data_raises ≡ false) × (a.event_block ≡ none))
      → IsValid others r
      → Returns (d ∷ others) (registry_callback pre_set_value_key k a r)
  registry_callback_leaks b e fault v = rw (set_value_lem k a r s) (
      freed_path (d ∷ others) a.path_block r _ (λ n. cc)
        (λ b' e'.
          subst
            (λ (x : ℕ).
              Returns (x ∷ d ∷ others) (behind_switch a r (store_data k (value_lookup k a r))))
            (same b' e') (leaks_before b e fault v)))
    where
      same : (b' : ℕ) → a.path_block ≡ some b' → b ≡ b'
      same b' e' = cc

-- A copy that is not safe is undefined.
deliver_unsafe :
    (a : CallbackAnswers) (r : Registry) (c : Captured) (e : ℕ)
    → a.event_block ≡ some e
    → is_copy_safe c ≡ false
    → deliver_event pre_set_value_key a c r ≡ none
unfolding deliver_event
deliver_unsafe a r c e event unsafe = rw (event, deliver_event, unsafe)

null_unsafe : (c : Captured) → c.data_block ≡ none → 0 < c.data_length → is_copy_safe c ≡ false
unfolding is_copy_safe
null_unsafe c null size = ground arith

store_data_null :
    (k : KeyInformation) (n : NameResult)
    → k.data_block ≡ none
    → let c = store_data k n in
      (c.is_valid ≡ true) × (c.data_block ≡ none) × (c.data_length ≡ k.data_size)
unfolding store_data
store_data_null k n null = simp null (refl, refl, refl)

with_path-none : (b : ℕ) (r : Registry) → with_path (some b) r none ≡ none
unfolding with_path
with_path-none b r = refl

-- A value with data is set whose key and name are found: where the allocation for the data fails
-- and the event's succeeds, the callback copies the data from a null pointer.
registry_callback_null_copy :
    (k : KeyInformation) (a : CallbackAnswers) (r : Registry) (b e : ℕ)
    → SetsValue k a r
    → a.path_block ≡ some b
    → a.event_block ≡ some e
    → k.data_block ≡ none
    → 0 < k.data_size
    → registry_callback pre_set_value_key k a r ≡ none
registry_callback_null_copy k a r b e s path event null size =
    let c = store_data_null k (value_lookup k a r) null in
    let unsafe = null_unsafe (store_data k (value_lookup k a r)) c.1 (omega (arith, c.2)) in
    let unsafe_lem = deliver_unsafe a r (store_data k (value_lookup k a r)) e event unsafe in
    rw (set_value_lem k a r s) (simp (c.0, unsafe_lem) (simp path (with_path-none b r)))
