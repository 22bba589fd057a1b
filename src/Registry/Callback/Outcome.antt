-- ===== src/Registry/Callback/Outcome.antt =====
-- RegistryCallback as a whole, where the kernel answers its allocations and raises no exception.
use hsn_capture_hpc_ng.Base.{
  ℕ, ◌+◌, ◌<◌, ◌≡◌, refl, inl, inr, subst, List, [], ◌∷◌, ◌++◌, Option, none, some, Bool, true,
  false, arith, length, length-append, Bool-cases, Option-cases, if◌then◌else◌, lt→ltb,
}
use hsn_capture_hpc_ng.Kernel.Pool.{
  Pool, Holds, block_of, allocated, allocated-Holds, free-Holds, free_if_allocated-Holds,
  Holds-to_front, Holds-from_front,
}
use hsn_capture_hpc_ng.Kernel.Status.{nt_success}
use hsn_capture_hpc_ng.Kernel.Text.{UnicodeString, byte_length, IsBounded}
use hsn_capture_hpc_ng.EventQueue.Clearing.{blocks, events}
use hsn_capture_hpc_ng.Registry.{
  NotifyClass, post_create_key, post_open_key, pre_delete_key, delete_value_key, pre_set_value_key,
  enumerate_key, enumerate_value_key, query_key, query_value_key, key_handle_close, other_class,
  Registry, sizeof_registry_event,
}
use hsn_capture_hpc_ng.Registry.Invariant.{
  IsWellFormed, AllWellFormed, IsValid, Queued, queue_registry_event-Queued,
}
use hsn_capture_hpc_ng.Registry.Callback.{
  KeyInformation, Captured, CallbackAnswers, untouched, names_value, capture, max_path_bytes,
  get_registry_object_complete_name, wide_bytes, make_event, is_copy_safe, settle, deliver_event,
  with_path, registry_callback,
}
use hsn_capture_hpc_ng.Registry.Callback.Capture.{
  Named, get_registry_object_complete_name-Named, with_value_name-Named, IsConsistent,
  looked_up-IsConsistent, untouched-IsConsistent, store_data-IsConsistent,
}

-- The kernel's part of a capture goes well: the allocations succeed, nothing raises an exception,
-- and the data handed over has the size that is said, below 2^32 - 2^17.
pub record IsUndisturbed (k : KeyInformation) (a : CallbackAnswers) : Type 0 where
  pub name_block : ℕ
  pub name_answered : k.object.name_block ≡ some name_block
  pub name_calm : k.object.raises ≡ false
  pub value_block : ℕ
  pub data_answered : k.data_block ≡ some value_block
  pub data_calm : k.data_raises ≡ false
  pub data_sized : k.data_size ≡ length k.value_data
  pub data_small : k.data_size < 0xFFFE0000
  pub event_block : ℕ
  pub event_answered : a.event_block ≡ some event_block
  pub packet_block : ℕ
  pub packet_answered : a.packet_block ≡ some packet_block

module _ (bs : List ℕ) (k : KeyInformation) (a : CallbackAnswers) (u : IsUndisturbed k a) where
  named :
      (partial : Option (List ℕ)) (path : UnicodeString) (m : Pool)
      → IsBounded path
      → path.maximum_length ≡ max_path_bytes
      → Holds m bs
      → Named bs (get_registry_object_complete_name path partial k.object m)
  named partial path m =
      get_registry_object_complete_name-Named k.object u.name_block u.name_answered u.name_calm path
        partial m bs

  capture-IsConsistent :
      (event : NotifyClass) (path : UnicodeString) (m : Pool)
      → IsBounded path
      → path.maximum_length ≡ max_path_bytes
      → Holds m bs
      → IsConsistent bs k (capture event k path m)
  unfolding capture
  capture-IsConsistent post_create_key path m w r h = elim (Bool-cases (nt_success k.status)) [
    | inl e ↦ rw e (looked_up-IsConsistent bs k 0 _ (named k.complete_name path m w r h))
    | inr e ↦ rw e (untouched-IsConsistent bs k path m w r h)
  ]
  capture-IsConsistent post_open_key path m w r h = elim (Bool-cases (nt_success k.status)) [
    | inl e ↦ rw e (looked_up-IsConsistent bs k 0 _ (named k.complete_name path m w r h))
    | inr e ↦ rw e (untouched-IsConsistent bs k path m w r h)
  ]
  capture-IsConsistent pre_delete_key path m w r h =
      looked_up-IsConsistent bs k 0 _ (named none path m w r h)
  capture-IsConsistent delete_value_key path m w r h =
      let n = named none path m w r h in
      elim (Bool-cases (names_value k (get_registry_object_complete_name path none k.object m))) [
        | inl e ↦ rw e (looked_up-IsConsistent bs k 0 _ (with_value_name-Named k.value_name bs _ n))
        | inr e ↦ rw e (looked_up-IsConsistent bs k 0 _ n)
      ]
  capture-IsConsistent pre_set_value_key path m w r h =
      let n = named none path m w r h in
      elim (Bool-cases (names_value k (get_registry_object_complete_name path none k.object m))) [
        | inl e ↦ rw e (
            store_data-IsConsistent bs k u.value_block _ u.data_answered u.data_calm u.data_sized n)
        | inr e ↦ rw e (looked_up-IsConsistent bs k 0 _ n)
      ]
  capture-IsConsistent query_value_key path m w r h =
      let n = named none path m w r h in
      elim (Bool-cases (names_value k (get_registry_object_complete_name path none k.object m))) [
        | inl e ↦ rw e (
            looked_up-IsConsistent bs k k.information_class _
              (with_value_name-Named k.value_name bs _ n))
        | inr e ↦ rw e (looked_up-IsConsistent bs k 0 _ n)
      ]
  capture-IsConsistent enumerate_key path m w r h =
      looked_up-IsConsistent bs k k.information_class _ (named none path m w r h)
  capture-IsConsistent enumerate_value_key path m w r h =
      looked_up-IsConsistent bs k k.information_class _ (named none path m w r h)
  capture-IsConsistent query_key path m w r h =
      looked_up-IsConsistent bs k k.information_class _ (named none path m w r h)
  capture-IsConsistent key_handle_close path m w r h =
      looked_up-IsConsistent bs k 0 _ (named none path m w r h)
  capture-IsConsistent (other_class c) path m w r h = untouched-IsConsistent bs k path m w r h

-- The same where the access to Argument2 may raise an exception.
captured-IsConsistent :
    (bs : List ℕ) (k : KeyInformation) (a : CallbackAnswers) (u : IsUndisturbed k a)
    (event : NotifyClass) (path : UnicodeString) (m : Pool)
    → IsBounded path
    → path.maximum_length ≡ max_path_bytes
    → Holds m bs
    → IsConsistent bs k (if k.unreadable then untouched path m else capture event k path m)
captured-IsConsistent bs k a u event path m w r h = elim (Bool-cases k.unreadable) [
  | inl bad ↦ simp bad (untouched-IsConsistent bs k path m w r h)
  | inr good ↦ simp good (capture-IsConsistent bs k a u event path m w r h)
]

length-wide_bytes : (cs : List ℕ) → length (wide_bytes cs) ≡ length cs + length cs
unfolding wide_bytes
length-wide_bytes [] = refl
length-wide_bytes (c ∷ cs) = omega (arith, length-wide_bytes cs)

is_copy_safe_consistent :
    (bs : List ℕ) (k : KeyInformation) (c : Captured)
    → k.data_size < 0xFFFE0000
    → IsConsistent bs k c
    → is_copy_safe c ≡ true
unfolding is_copy_safe
is_copy_safe_consistent bs k c small v =
    rw
      (lt→ltb (sizeof_registry_event + byte_length c.path + 2 + c.data_length) 0x100000000
        (omega (arith, v.bounded, v.room, v.small)))
      (elim (Option-cases c.data_block) [
        | inl e ↦ rw e (ground (arith, v.no_data e))
        | inr (d, e) ↦ rw e
      ])

make_event-IsWellFormed :
    (bs : List ℕ) (k : KeyInformation) (event : NotifyClass) (time process : ℕ) (c : Captured)
    → k.data_size < 0xFFFE0000
    → IsConsistent bs k c
    → IsWellFormed (make_event event time process c)
unfolding make_event
make_event-IsWellFormed bs k event time process c small v = (
  omega (
    arith,
    length-append (wide_bytes c.path.characters) (0 ∷ 0 ∷ c.bytes),
    length-wide_bytes c.path.characters,
    v.filled,
  ),
  omega (arith, v.bounded, v.room, v.small),
)

-- The callback returned, in a valid state.
abbrev pub Returns : List ℕ → Option Registry → Type 0
Returns others none = ⊥
Returns others (some r) = IsValid others r

settled :
    (others : List ℕ) (b : ℕ) (o : Option (Bool × Registry))
    → Queued others b o
    → Returns others (elim o [ none ↦ none | some q ↦ some (settle b q) ])
unfolding settle
settled others b none v = v
settled others b (some (true, r)) v = v
settled others b (some (false, r)) v = record {
  owned =
      free-Holds b r.pool (blocks r.queued_registry_events ++ others)
        (Holds-to_front b r.pool (blocks r.queued_registry_events) others v.owned);
  well_formed = v.well_formed;
}

pub freed_path :
    (others : List ℕ) (o : Option ℕ) (r : Registry) (after : Option Registry)
    → (o ≡ none → IsValid others r)
    → ((b : ℕ) → o ≡ some b → Returns (b ∷ others) after)
    → Returns others (with_path o r after)
unfolding with_path
freed_path others none r after v w = v refl
freed_path others (some b) r none v w = w b refl
freed_path others (some b) r (some r') v w =
    let w' = w b refl in
    record {
      owned =
          free-Holds b r'.pool (blocks r'.queued_registry_events ++ others)
            (Holds-to_front b r'.pool (blocks r'.queued_registry_events) others w'.owned);
      well_formed = w'.well_formed;
    }

module _ (others : List ℕ) (event : NotifyClass) (k : KeyInformation) (a : CallbackAnswers)
    (u : IsUndisturbed k a) where
  deliver_event-Returns :
      (c : Captured) (r : Registry)
      → IsConsistent (blocks r.queued_registry_events ++ others) k c
      → AllWellFormed (events r.queued_registry_events)
      → Returns others (deliver_event event a c r)
  unfolding deliver_event
  deliver_event-Returns c r v w =
      let bs : List ℕ = blocks r.queued_registry_events ++ others in
      let b = u.event_block in
      let m = allocated (some b) c.pool in
      rw (u.event_answered, u.packet_answered, is_copy_safe_consistent bs k c u.data_small v)
        (settled others b _ (
          queue_registry_event-Queued others a.now u.packet_block b _ _
            (make_event-IsWellFormed bs k event a.time a.process_id c u.data_small v)
            (record {
              owned = Holds-from_front b _ (blocks r.queued_registry_events) others (
                  free_if_allocated-Holds c.data_block m (b ∷ bs) (
                    Holds-from_front b m (block_of c.data_block) bs
                      (allocated-Holds b c.pool (block_of c.data_block ++ bs) v.held)));
              well_formed = w;
            })))

  -- With the choice that the callback makes between the two.
  delivered_or_dropped :
      (c : Captured) (r : Registry)
      → IsConsistent (blocks r.queued_registry_events ++ others) k c
      → AllWellFormed (events r.queued_registry_events)
      → Returns others
          (if c.is_valid then deliver_event event a c r else some (record r { pool = c.pool }))
  delivered_or_dropped c r v w = elim (Bool-cases c.is_valid) [
    | inl e ↦ simp e (deliver_event-Returns c r v w)
    | inr e ↦ simp e (record {
      owned =
          subst
            (λ (o : Option ℕ).
              Holds c.pool (block_of o ++ (blocks r.queued_registry_events ++ others)))
            (v.unused e) v.held;
      well_formed = w;
    })
  ]

module _ (others : List ℕ) (event : NotifyClass) (k : KeyInformation) (a : CallbackAnswers)
    (u : IsUndisturbed k a) where
  -- In a valid driver, and where the kernel's part of the capture goes well, the callback returns,
  -- whatever the event, and the driver stays valid: the event is queued or freed, and every other
  -- block that was allocated on the way is freed.
  pub registry_callback-Returns :
      (r : Registry) → IsValid others r → Returns others (registry_callback event k a r)
  unfolding registry_callback
  registry_callback-Returns r v =
      let q : List ℕ = blocks r.queued_registry_events in
      let m : Pool = allocated a.path_block r.pool in
      let path : UnicodeString = record { characters = []; maximum_length = max_path_bytes } in
      let c : Captured = if k.unreadable then untouched path m else capture event k path m in
      freed_path others a.path_block r _ (λ _. v)
        λ b e.
          let h : Holds m (q ++ b ∷ others) =
            Holds-from_front b m q others
              (simp e (allocated-Holds b r.pool (q ++ others) v.owned)) in
          delivered_or_dropped (b ∷ others) event k a u c r
            (captured-IsConsistent (q ++ b ∷ others) k a u event path m (omega arith) refl h)
            v.well_formed
