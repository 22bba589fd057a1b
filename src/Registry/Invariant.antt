-- ===== src/Registry/Invariant.antt =====
-- What holds of the registry driver between its entry points, and which of them keep it.
use hsn_capture_hpc_ng.Base.{
  ℕ, ◌+◌, ◌-◌, ◌<◌, ◌≡◌, inl, inr, List, [], ◌∷◌, ◌++◌, Option, none, some, Bool, true, false,
  arith, leb, length, Bool-cases,
}
use native.Mathlib.Nat.{mod-eq_of_lt}
use hsn_capture_hpc_ng.Kernel.Pool.{Holds}
use hsn_capture_hpc_ng.Kernel.Clock.{is_timed_out, is_connected}
use hsn_capture_hpc_ng.EventQueue.{Packet}
use hsn_capture_hpc_ng.EventQueue.Clearing.{blocks, events, clear_queue-Holds, queue_packet-Holds}
use hsn_capture_hpc_ng.EventQueue.Filling.{
  AllAtLeast, waiting, fill_buffer-Holds, fill_buffer-Delivers,
}
use hsn_capture_hpc_ng.Registry.{
  RegistryEvent, Registry, sizeof_registry_event, registry_event_size, update_last_contact_time,
  connection_checker, stop_capture, unload_driver, handle_ioctl_get_reg_events, ControlCode,
  get_regevents, other_code, k_dispatch_ioctl, queue_registry_event,
}

-- The lengths of an event say what its data holds, and its size is not cut off to 32 bits.
abbrev pub IsWellFormed : RegistryEvent → Type 0
IsWellFormed e =
    (length e.registry_data ≡ e.path_length + e.data_length)
    × (sizeof_registry_event + e.path_length + e.data_length < 0x100000000)

abbrev pub AllWellFormed : List RegistryEvent → Type 0
AllWellFormed [] = Unit {0}
AllWellFormed (e ∷ es) = IsWellFormed e × AllWellFormed es

-- The pool holds the two blocks of every queued event and, besides, the others.
pub record IsValid (others : List ℕ) (r : Registry) : Type 0 where
  pub owned : Holds r.pool (blocks r.queued_registry_events ++ others)
  pub well_formed : AllWellFormed (events r.queued_registry_events)

pub AllWellFormed-size :
    (es : List RegistryEvent)
    → AllWellFormed es
    → AllAtLeast registry_event_size sizeof_registry_event es
AllWellFormed-size [] h = tt
AllWellFormed-size (e ∷ es) h = (
  rw
      (mod-eq_of_lt {n = sizeof_registry_event + e.path_length + e.data_length} {m = 0x100000000}
        h.0.1)
      (omega arith),
  AllWellFormed-size es h.1,
)

AllWellFormed-waiting :
    (room : ℕ) (es : List RegistryEvent)
    → AllWellFormed es
    → AllWellFormed (waiting registry_event_size room es)
AllWellFormed-waiting room [] h = tt
AllWellFormed-waiting room (e ∷ es) h = elim (Bool-cases (leb (registry_event_size e) room)) [
  | inl fits ↦ rw fits (AllWellFormed-waiting (room - registry_event_size e) es h.1)
  | inr large ↦ rw large h
]

pub connection_checker-IsValid :
    (others : List ℕ) (now : ℕ) (r : Registry)
    → IsValid others r
    → IsValid others (connection_checker now r)
unfolding connection_checker
connection_checker-IsValid others now r v =
    elim (Bool-cases (is_timed_out now r.last_contact_time)) [
      | inl old ↦ rw old (record {
        owned = clear_queue-Holds r.queued_registry_events r.pool others v.owned;
        well_formed = tt;
      })
      | inr recent ↦ rw recent v
    ]

-- Nothing of the queue is left in the pool when the driver is unloaded.
pub unload_driver-Holds :
    (others : List ℕ) (r : Registry) → IsValid others r → Holds (unload_driver r).pool others
unfolding unload_driver
unload_driver-Holds others r v = elim (Bool-cases r.ready) [
  | inl ready ↦
      rw (ready, stop_capture) (clear_queue-Holds r.queued_registry_events r.pool others v.owned)
  | inr idle ↦
      rw (idle, stop_capture) (clear_queue-Holds r.queued_registry_events r.pool others v.owned)
]

handle_ioctl-IsValid :
    (others : List ℕ) (buffer : Bool) (probe : Option ℕ) (len : ℕ) (r : Registry)
    → len < 0x100000000
    → IsValid others r
    → IsValid others (handle_ioctl_get_reg_events buffer probe len r).1
unfolding handle_ioctl_get_reg_events
handle_ioctl-IsValid others false probe len r h v = v
handle_ioctl-IsValid others true (some code) len r h v = v
handle_ioctl-IsValid others true none len r h v =
    elim (Bool-cases (leb sizeof_registry_event len)) [
      | inl room ↦ rw room (record {
        owned =
            fill_buffer-Holds registry_event_size sizeof_registry_event len 0
              r.queued_registry_events r.pool others v.owned;
        well_formed =
            rw
              (fill_buffer-Delivers registry_event_size sizeof_registry_event len 0
                r.queued_registry_events r.pool (omega arith) h (omega arith)
                (AllWellFormed-size _ v.well_formed)).queue_eq
              (AllWellFormed-waiting _ _ v.well_formed);
      })
      | inr small ↦ rw small v
    ]

pub update_last_contact_time-IsValid :
    (others : List ℕ) (now : ℕ) (r : Registry)
    → IsValid others r
    → IsValid others (update_last_contact_time now r)
unfolding update_last_contact_time
update_last_contact_time-IsValid others now r v = record {
  owned = v.owned;
  well_formed = v.well_formed;
}

pub k_dispatch_ioctl-IsValid :
    (others : List ℕ) (code : ControlCode) (buffer : Bool) (probe : Option ℕ) (len now : ℕ)
    (r : Registry)
    → len < 0x100000000
    → IsValid others r
    → IsValid others (k_dispatch_ioctl code buffer probe len now r).1
unfolding k_dispatch_ioctl
k_dispatch_ioctl-IsValid others get_regevents buffer probe len now r h v =
    handle_ioctl-IsValid others buffer probe len _ h
      (update_last_contact_time-IsValid others now r v)
k_dispatch_ioctl-IsValid others other_code buffer probe len now r h v = v

AllWellFormed-snoc :
    (q : List (Packet RegistryEvent)) (p : Packet RegistryEvent)
    → AllWellFormed (events q)
    → IsWellFormed p.event
    → AllWellFormed (events (q ++ p ∷ []))
AllWellFormed-snoc [] p h w = (w, tt)
AllWellFormed-snoc (x ∷ q) p h w = (h.0, AllWellFormed-snoc q p h.1 w)

-- An event that is queued hands its block over to the queue; otherwise the caller keeps it.
abbrev pub Queued : List ℕ → ℕ → Option (Bool × Registry) → Type 0
Queued others b none = ⊥
Queued others b (some (true, r)) = IsValid others r
Queued others b (some (false, r)) = IsValid (b ∷ others) r

-- In a driver that is valid besides the block of a well-formed event, QueueRegistryEvent with an
-- answered allocation leaves it valid, and the block is the queue's where it says TRUE and still the
-- caller's where it says FALSE.
pub queue_registry_event-Queued :
    (others : List ℕ) (now a b : ℕ) (e : RegistryEvent) (r : Registry)
    → IsWellFormed e
    → IsValid (b ∷ others) r
    → Queued others b (queue_registry_event now (some a) b e r)
unfolding queue_registry_event
queue_registry_event-Queued others now a b e r w v =
    elim (Bool-cases (is_connected now r.last_contact_time)) [
      | inl on ↦ rw on (record {
        owned =
            queue_packet-Holds r.queued_registry_events
              (record { block = a; event_block = b; event = e }) r.pool others v.owned;
        well_formed =
            AllWellFormed-snoc r.queued_registry_events
              (record { block = a; event_block = b; event = e }) v.well_formed w;
      })
      | inr off ↦ rw off v
    ]
