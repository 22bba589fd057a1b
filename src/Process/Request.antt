-- ===== src/Process/Request.antt =====
-- The request of the userspace program: which packet it is given, and when another is announced.
use hsn_capture_hpc_ng.Base.{
  ℕ, zero, suc, ◌+◌, ◌-◌, ◌%◌, ◌≤◌, ◌<◌, ◌≡◌, refl, ap, ◌∙◌, List, [], ◌∷◌, none, some, Bool, true,
  false, arith, le→leb, ◌==◌, if◌then◌else◌, length,
}
use hsn_capture_hpc_ng.Process.{
  ProcessEvent, EventPacket, ProcessManager, get_procinfo, Reply, take_event, complete,
  k_dispatch_ioctl, sizeof_process_event,
}
use hsn_capture_hpc_ng.Process.Invariant.{IsValid}

-- The events that wait, the oldest first.
abbrev pub events_of : List EventPacket → List ProcessEvent
events_of [] = []
events_of (e ∷ q) = e.event ∷ events_of q

-- What the answers brought, in their order.
pub received : List Reply → List ProcessEvent
received [] = []
received (r ∷ rs) = elim r.event [ none ↦ received rs | some e ↦ e ∷ received rs ]

received_event :
    (r : Reply) (rs : List Reply) (e : ProcessEvent)
    → r.event ≡ some e
    → received (r ∷ rs) ≡ e ∷ received rs
unfolding received
received_event r rs e h = rw (h, received) refl

-- So many requests, one after another, each with the same room.
pub requests : ℕ → ℕ → ProcessManager → List Reply × ProcessManager
requests zero len p = ([], p)
requests (suc n) len p =
    let (r, p1) = k_dispatch_ioctl get_procinfo none len p in
    let (rs, p2) = requests n len p1 in (r ∷ rs, p2)

-- One request of a queue that is not empty.
k_dispatch_ioctl-head :
    (x : EventPacket) (q : List EventPacket) (len : ℕ) (p : ProcessManager)
    → p.queued_process_events ≡ x ∷ q
    → sizeof_process_event ≤ len
    → ((k_dispatch_ioctl get_procinfo none len p).0.event ≡ some x.event)
      × ((k_dispatch_ioctl get_procinfo none len p).1.queued_process_events ≡ q)
unfolding k_dispatch_ioctl take_event complete
k_dispatch_ioctl-head x q len p e fits =
    rw (le→leb sizeof_process_event len fits) (rw (e, take_event) (refl, refl))

requests_from :
    (q : List EventPacket) (len : ℕ) (p : ProcessManager)
    → p.queued_process_events ≡ q
    → sizeof_process_event ≤ len
    → (received (requests (length q) len p).0 ≡ events_of q)
      × ((requests (length q) len p).1.queued_process_events ≡ [])
unfolding requests received
requests_from [] len p e fits = (refl, e)
requests_from (x ∷ q) len p e fits =
    let head = k_dispatch_ioctl-head x q len p e fits in
    let rest = requests_from q len (k_dispatch_ioctl get_procinfo none len p).1 head.1 fits in
    (
      received_event (k_dispatch_ioctl get_procinfo none len p).0
            (requests (length q) len (k_dispatch_ioctl get_procinfo none len p).1).0 x.event head.0
          ∙ ap (λ es. x.event ∷ es) rest.0,
      rest.1,
    )

-- As many requests as packets wait, with room for an event each, bring all the events in the order
-- in which they were captured, and leave the queue empty.
pub requests-InOrder :
    (len : ℕ) (p : ProcessManager)
    → sizeof_process_event ≤ len
    → (received (requests (length p.queued_process_events) len p).0
        ≡ events_of p.queued_process_events)
      × ((requests (length p.queued_process_events) len p).1.queued_process_events ≡ [])
requests-InOrder len p fits = requests_from p.queued_process_events len p refl fits

once_more : (empty : Bool) (n : ℕ) → (if empty then n else n + 1) ≡ n + (if empty then 0 else 1)
once_more true n = omega arith
once_more false n = refl

-- In a valid state with fewer than 2^32 packets: a request that is given an event sets the driver's
-- event again, once, where other packets are left, and not where none is.
k_dispatch_ioctl-Announces :
    (others : List ℕ) (x : EventPacket) (q : List EventPacket) (len : ℕ) (p : ProcessManager)
    → IsValid others p
    → p.queued_process_events ≡ x ∷ q
    → length p.queued_process_events < 0x100000000
    → sizeof_process_event ≤ len
    → (k_dispatch_ioctl get_procinfo none len p).1.pulses
      ≡ p.pulses + (if length q == 0 then 0 else 1)
unfolding k_dispatch_ioctl take_event
k_dispatch_ioctl-Announces others x q len p v e small fits =
    rw (le→leb sizeof_process_event len fits) (
      rw (e, take_event)
        (let rest : (p.queued_count + 0x100000000 - 1) % 0x100000000 ≡ length q =
            omega (arith, v.counted, ap length e, small) in
          rw rest (once_more (length q == 0) p.pulses)))
