-- ===== src/Registry/Request.antt =====
-- KDispatchIoctl of the registry driver, and the inner loop of RegistryMonitor::run in
-- Client/RegistryMonitor.cpp, which takes the answer apart.
use hsn_capture_hpc_ng.Base.{
  ℕ, ◌≤◌, ◌<◌, ◌≡◌, refl, List, [], ◌++◌, Option, none, some, Bool, true, false, arith, le→leb,
  not-le→leb, length,
}
use hsn_capture_hpc_ng.EventQueue.Clearing.{events}
use hsn_capture_hpc_ng.EventQueue.Sending.{Sends, fill_buffer-Sends, receive, receive-Sends}
use hsn_capture_hpc_ng.Registry.{
  RegistryEvent, Registry, Reply, sizeof_registry_event, registry_event_size,
  update_last_contact_time, handle_ioctl_get_reg_events, ControlCode, get_regevents, other_code,
  complete, k_dispatch_ioctl,
}
use hsn_capture_hpc_ng.Registry.Invariant.{AllWellFormed, AllWellFormed-size}

-- A request with a writable buffer of at least the fixed part of an event, and less than 2^32
-- bytes, succeeds; where the queued events are well formed, it sends the longest prefix of the queue
-- that fits, side by side, and leaves the rest. The time of contact is noted.
pub k_dispatch_ioctl-Sends :
    (len now : ℕ) (r : Registry)
    → sizeof_registry_event ≤ len
    → len < 0x100000000
    → AllWellFormed (events r.queued_registry_events)
    → let (a, r') = k_dispatch_ioctl get_regevents true none len now r in
      Sends registry_event_size len
        (events r.queued_registry_events)
        a.information
        a.output
        (events r'.queued_registry_events)
      × (a.status ≡ 0)
      × (r'.last_contact_time ≡ now)
unfolding k_dispatch_ioctl handle_ioctl_get_reg_events
k_dispatch_ioctl-Sends len now r room small w = rw (le→leb sizeof_registry_event len room) (
  fill_buffer-Sends registry_event_size sizeof_registry_event len r.queued_registry_events r.pool
      (omega arith) small (AllWellFormed-size _ w),
  refl,
  refl,
)

-- The requests that are refused: an unknown control code, no buffer, a buffer that cannot be
-- written, and one without room for the fixed part of an event.
pub data Refused : ControlCode → Bool → Option ℕ → ℕ → Type 0 where
  unknown : (buffer : Bool) (probe : Option ℕ) (len : ℕ) → Refused other_code buffer probe len
  no_buffer : (probe : Option ℕ) (len : ℕ) → Refused get_regevents false probe len
  not_writable : (code len : ℕ) → Refused get_regevents true (some code) len
  no_room : (len : ℕ) → len < sizeof_registry_event → Refused get_regevents true none len

-- A request of one of these four kinds sends nothing, says so, and leaves the queue and the pool
-- alone.
k_dispatch_ioctl-Refused :
    {code : ControlCode} {buffer : Bool} {probe : Option ℕ} {len : ℕ} (now : ℕ) (r : Registry)
    → Refused code buffer probe len
    → let (a, r') = k_dispatch_ioctl code buffer probe len now r in
      (a.information ≡ 0)
      × (a.output ≡ [])
      × (r'.queued_registry_events ≡ r.queued_registry_events)
      × (r'.pool ≡ r.pool)
unfolding k_dispatch_ioctl handle_ioctl_get_reg_events update_last_contact_time complete
k_dispatch_ioctl-Refused now r (unknown buffer probe len) = ground arith
k_dispatch_ioctl-Refused now r (no_buffer probe len) = ground arith
k_dispatch_ioctl-Refused now r (not_writable code len) = ground arith
k_dispatch_ioctl-Refused now r (no_room len h) = rw (not-le→leb _ _ h) (ground arith)

-- RegistryMonitor::run, behind DeviceIoControl: the events that are handled, in order; `none` if
-- an offset is not the start of an event. The fuel bounds the number of events.
pub receive_registry_events : (ℕ → Bool) → ℕ → Reply → Option (List RegistryEvent)
receive_registry_events should_stop fuel a =
    receive registry_event_size sizeof_registry_event should_stop fuel a.output a.information

-- The round trip from the driver to the monitor, for a writable buffer of at least the fixed part of
-- an event and less than 2^32 bytes, and well-formed events: while its thread runs, and on fuel for
-- the whole queue, the monitor handles the very events that the driver has taken off its queue, in
-- their order.
pub receive-k_dispatch_ioctl :
    (should_stop : ℕ → Bool) (fuel len now : ℕ) (r : Registry)
    → ((o : ℕ) → should_stop o ≡ false)
    → length (events r.queued_registry_events) ≤ fuel
    → sizeof_registry_event ≤ len
    → len < 0x100000000
    → AllWellFormed (events r.queued_registry_events)
    → let (a, r') = k_dispatch_ioctl get_regevents true none len now r in
      (sent : List RegistryEvent) × (receive_registry_events should_stop fuel a ≡ some sent)
      × (sent ++ events r'.queued_registry_events ≡ events r.queued_registry_events)
unfolding receive_registry_events
receive-k_dispatch_ioctl should_stop fuel len now r runs f room small w =
    let v = (k_dispatch_ioctl-Sends len now r room small w).0 in
    (
      v.sent,
      receive-Sends registry_event_size sizeof_registry_event should_stop fuel v runs (omega arith)
          small (AllWellFormed-size _ w) f,
      v.whole,
    )
