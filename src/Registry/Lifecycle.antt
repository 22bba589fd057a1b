-- ===== src/Registry/Lifecycle.antt =====
-- DriverEntry and UnloadDriver of the registry driver, and what happens between them.
use hsn_capture_hpc_ng.Base.{
  ℕ, ◌<◌, ◌≡◌, refl, subst, ◌⊎◌, inl, inr, sym, append_assoc, List, [], ◌++◌, Option, some, Bool,
  true, false, Bool-cases,
}
use hsn_capture_hpc_ng.Kernel.Pool.{Holds}
use hsn_capture_hpc_ng.Kernel.Status.{nt_success}
use hsn_capture_hpc_ng.Registry.{
  NotifyClass, Registry, ControlCode, driver_entry, connection_checker, unload_driver,
  k_dispatch_ioctl, k_dispatch_ioctl_raised, RegistryEvent, Reply,
}
use hsn_capture_hpc_ng.EventQueue.{Packet}
use hsn_capture_hpc_ng.Registry.Raising.{lost_blocks, k_dispatch_ioctl_raised-Leaves}
use hsn_capture_hpc_ng.Registry.Callback.{KeyInformation, CallbackAnswers, registry_callback}
use hsn_capture_hpc_ng.Registry.Callback.Outcome.{IsUndisturbed, Returns, registry_callback-Returns}
use hsn_capture_hpc_ng.Registry.Invariant.{
  IsValid, connection_checker-IsValid, unload_driver-Holds, k_dispatch_ioctl-IsValid,
}

-- What a failed load leaves behind.
abbrev pub IsClean : Registry → Type 0
IsClean r = (r.device ≡ false) × (r.link ≡ false) × (r.callback ≡ false) × (r.timer ≡ false)

abbrev pub IsUnloaded : Registry → Type 0
IsUnloaded r = IsClean r × (r.ready ≡ false)

-- One call of an entry point between loading and unloading, with the blocks that it loses: those of
-- the packet whose copy raises an exception, where a request runs into one.
pub data Step : Registry → List ℕ → Registry → Type 0 where
  event :
      (class : NotifyClass) (k : KeyInformation) (a : CallbackAnswers) (r r' : Registry)
      → IsUndisturbed k a
      → registry_callback class k a r ≡ some r'
      → Step r [] r'
  request :
      (code : ControlCode) (buffer : Bool) (probe : Option ℕ) (len now : ℕ) (r : Registry)
      → len < 0x100000000
      → Step r [] (k_dispatch_ioctl code buffer probe len now r).1
  request_raised :
      (n code len now : ℕ) (p : Packet RegistryEvent) (a : Reply) (r r' : Registry)
      → k_dispatch_ioctl_raised n code len now r ≡ some (p, (a, r'))
      → Step r (lost_blocks p) r'
  check : (now : ℕ) (r : Registry) → Step r [] (connection_checker now r)

pub data Reach (r : Registry) : List ℕ → Registry → Type 0 where
  here : Reach r [] r
  next : {s t : Registry} {bs cs : List ℕ} → Reach r bs s → Step s cs t → Reach r (cs ++ bs) t

-- In a valid driver a request with a buffer below 2^32 bytes, the timer, and an event for which the
-- kernel's part goes well leave it valid: the pool holds the blocks of the queue, those that are lost and
-- those of others, and no more, and the queued events are well formed.
Step-IsValid :
    (others : List ℕ) {r r' : Registry} {bs : List ℕ}
    → Step r bs r'
    → IsValid others r
    → IsValid (bs ++ others) r'
Step-IsValid others (event class k a r r' u e) v =
    subst (Returns others) e (registry_callback-Returns others class k a u r v)
Step-IsValid others (request code buffer probe len now r h) v =
    k_dispatch_ioctl-IsValid others code buffer probe len now r h v
Step-IsValid others (request_raised n code len now p a r r' e) v =
    k_dispatch_ioctl_raised-Leaves others n code len now p a r r' v e
Step-IsValid others (check now r) v = connection_checker-IsValid others now r v

Reach-IsValid :
    (others : List ℕ) {r r' : Registry} {bs : List ℕ}
    → Reach r bs r'
    → IsValid others r
    → IsValid (bs ++ others) r'
Reach-IsValid others here v = v
Reach-IsValid others (next {s} {t} {bs} {cs} p s') v =
    subst (λ (xs : List ℕ). IsValid xs t) (sym (append_assoc cs bs others))
      (Step-IsValid (bs ++ others) s' (Reach-IsValid others p v))

driver_entry-IsValid :
    (others : List ℕ) (created linked registered now : ℕ) (r : Registry)
    → Holds r.pool others
    → nt_success created ≡ true
    → nt_success linked ≡ true
    → nt_success registered ≡ true
    → IsValid others (driver_entry created linked registered now r).1
unfolding driver_entry
driver_entry-IsValid others created linked registered now r h c l g =
    rw (c, l, g) (record { owned = h; well_formed = tt })

-- Where the three calls of DriverEntry succeed, any requests with buffers below 2^32 bytes, runs of the
-- timer, and events for which the kernel's part goes well may follow: after the unloading the pool
-- holds what it held before the load, and the two blocks of each packet whose copy into the buffer of a
-- request raised an exception, which are leaked.
pub unload_driver-Reach :
    (others lost : List ℕ) (created linked registered now : ℕ) (r r' : Registry)
    → Holds r.pool others
    → nt_success created ≡ true
    → nt_success linked ≡ true
    → nt_success registered ≡ true
    → Reach (driver_entry created linked registered now r).1 lost r'
    → Holds (unload_driver r').pool (lost ++ others)
unload_driver-Reach others lost created linked registered now r r' h c l g p =
    unload_driver-Holds (lost ++ others) r'
      (Reach-IsValid others p (driver_entry-IsValid others created linked registered now r h c l g))

-- Loaded from a state without a device, link, callback or timer, the driver is either set up whole,
-- and then every call succeeded; or it is not ready and reports a failure, with nothing left behind,
-- or CmRegisterCallback failed and the device and its link are left.
driver_entry_outcome :
    (created linked registered now : ℕ) (r : Registry)
    → IsUnloaded r
    → let (status, r') = driver_entry created linked registered now r in
      ((nt_success created ≡ true)
        × (nt_success linked ≡ true)
        × (nt_success registered ≡ true)
        × (status ≡ 0)
        × (r'.device ≡ true)
        × (r'.link ≡ true)
        × (r'.callback ≡ true)
        × (r'.timer ≡ true)
        × (r'.ready ≡ true)
        × (r'.last_contact_time ≡ now))
      ⊎ ((nt_success status ≡ false) × (r'.ready ≡ false) × IsClean r')
      ⊎ ((nt_success registered ≡ false)
          × (status ≡ registered)
          × (r'.ready ≡ false)
          × (r'.callback ≡ false)
          × (r'.device ≡ true)
          × (r'.link ≡ true))
unfolding driver_entry
driver_entry_outcome created linked registered now r u = elim (Bool-cases (nt_success created)) [
  | inr c ↦ rw c (inr (inl (c, u.1, u.0)))
  | inl c ↦ elim (Bool-cases (nt_success linked)) [
    | inr l ↦ rw (c, l) (inr (inl (l, refl, (refl, u.0.1, u.0.2, u.0.3))))
    | inl l ↦ elim (Bool-cases (nt_success registered)) [
      | inr g ↦ rw (c, l, g) (inr (inr (refl, refl, refl, u.0.2, refl, refl)))
      | inl g ↦ rw (c, l, g) (inl (refl, refl, refl, refl, refl, refl, refl, refl, refl, refl))
    ]
  ]
]
