-- ===== src/Registry/Raising.antt =====
-- What a request for events loses where copying an event raises an exception
-- (HandleIoctlGetRegEvents in CaptureRegistryMonitor.c).
use hsn_capture_hpc_ng.Base.{
  ℕ, zero, suc, ◌-◌, ◌≡◌, refl, subst, inl, inr, List, [], ◌∷◌, ◌++◌, Option, none, some, ◌&&◌,
  arith, leb, ltb, count, Bool-cases, Option-cases,
}
use hsn_capture_hpc_ng.Kernel.Pool.{Pool, Holds, Holds-reorder}
use hsn_capture_hpc_ng.EventQueue.{Packet, copy_raises}
use hsn_capture_hpc_ng.EventQueue.Clearing.{blocks, events, free_packet-Holds}
use hsn_capture_hpc_ng.Registry.{
  RegistryEvent, Registry, Reply, sizeof_registry_event, registry_event_size,
  update_last_contact_time, raised, handle_ioctl_get_reg_events_raised, k_dispatch_ioctl_raised,
}
use hsn_capture_hpc_ng.Registry.Invariant.{IsValid, AllWellFormed, update_last_contact_time-IsValid}

-- The blocks of a packet that is off the queue.
abbrev pub lost_blocks : Packet RegistryEvent → List ℕ
lost_blocks p = p.event_block ∷ p.block ∷ []

abbrev LosesOne :
    List ℕ → Option (Packet RegistryEvent × (List (Packet RegistryEvent) × Pool)) → Type 0
LosesOne others none = Unit {0}
LosesOne others (some (p, (q, m))) =
    Holds m (blocks q ++ (lost_blocks p ++ others)) × AllWellFormed (events q)

count-lost :
    (a b c : ℕ) (xs others : List ℕ)
    → count a (b ∷ c ∷ (xs ++ others)) ≡ count a (xs ++ (b ∷ c ∷ others))
count-lost a b c [] others = refl
count-lost a b c (x ∷ xs) others = omega (arith, count-lost a b c xs others)

copy_raises-LosesOne :
    (n used len : ℕ) (q : List (Packet RegistryEvent)) (m : Pool) (others : List ℕ)
    → Holds m (blocks q ++ others)
    → AllWellFormed (events q)
    → LosesOne others (copy_raises registry_event_size sizeof_registry_event len n used q m)
unfolding copy_raises
copy_raises-LosesOne n used len [] m others h w = tt
copy_raises-LosesOne zero used len (p ∷ q) m others h w =
    elim (Bool-cases (
      ltb used len
      && leb sizeof_registry_event (len - used)
      && leb (registry_event_size p.event) (len - used))) [
        | inr stops ↦ rw stops tt
        | inl copies ↦ rw copies (
          Holds-reorder m (blocks (p ∷ q) ++ others) (blocks q ++ (lost_blocks p ++ others))
              (λ a. count-lost a p.event_block p.block (blocks q) others) h,
          w.1,
        )
      ]
copy_raises-LosesOne (suc n) used len (p ∷ q) m others h w =
    elim (Bool-cases (
      ltb used len
      && leb sizeof_registry_event (len - used)
      && leb (registry_event_size p.event) (len - used))) [
        | inr stops ↦ rw stops tt
        | inl copies ↦ rw copies (
            copy_raises-LosesOne n _ len q _ others (free_packet-Holds p m (blocks q ++ others) h)
              w.1)
      ]

-- What a request that raises leaves.
abbrev Leaves : List ℕ → Option (Packet RegistryEvent × (Reply × Registry)) → Type 0
Leaves others none = Unit {0}
Leaves others (some (p, (a, r))) = IsValid (lost_blocks p ++ others) r

handle_ioctl-Leaves :
    (others : List ℕ) (n code len : ℕ) (r : Registry)
    → IsValid others r
    → Leaves others (handle_ioctl_get_reg_events_raised n code len r)
unfolding handle_ioctl_get_reg_events_raised raised
handle_ioctl-Leaves others n code len r v =
    let loses =
      copy_raises-LosesOne n 0 len r.queued_registry_events r.pool others v.owned v.well_formed in
    elim (Bool-cases (leb sizeof_registry_event len)) [
      | inr small ↦ rw small tt
      | inl room ↦
          rw room
            (elim (Option-cases (
              copy_raises registry_event_size sizeof_registry_event len n 0 r.queued_registry_events
                r.pool)) [
                  | inl none_made ↦ rw none_made tt
                  | inr ((p, (q, m)), made) ↦
                      let (h, w) = subst (LosesOne others) made loses in
                      rw made (record { owned = h; well_formed = w })
                ])
    ]

-- The driver stays valid, with the blocks of the packet that was lost besides those of others.
pub k_dispatch_ioctl_raised-Leaves :
    (others : List ℕ) (n code len now : ℕ) (p : Packet RegistryEvent) (a : Reply) (r r' : Registry)
    → IsValid others r
    → k_dispatch_ioctl_raised n code len now r ≡ some (p, (a, r'))
    → IsValid (lost_blocks p ++ others) r'
unfolding k_dispatch_ioctl_raised
k_dispatch_ioctl_raised-Leaves others n code len now p a r r' v e =
    let left =
      handle_ioctl-Leaves others n code len (update_last_contact_time now r)
        (update_last_contact_time-IsValid others now r v) in
    subst (Leaves others) e
      (elim (Option-cases
        (handle_ioctl_get_reg_events_raised n code len (update_last_contact_time now r))) [
          | inl none_made ↦ rw (none_made, k_dispatch_ioctl_raised) tt
          | inr ((x, (b, s)), made) ↦
              rw (made, k_dispatch_ioctl_raised) (subst (Leaves others) made left)
        ])
