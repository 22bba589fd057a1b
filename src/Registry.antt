-- ===== src/Registry.antt =====
-- CaptureRegistryMonitor.c: the state of the driver, its loading and unloading, the queue of
-- registry events and the request of the userspace program. RegistryCallback, which captures the
-- events, is in Registry/Callback.antt.
pub mod Callback
pub mod Invariant
pub mod Raising
pub mod Request
pub mod Lifecycle
pub mod Tests
use hsn_capture_hpc_ng.Base.{
  ℕ, ◌+◌, ◌%◌, List, [], ◌∷◌, ◌++◌, Option, none, some, Bool, true, false, leb, if◌then◌else◌,
}
use hsn_capture_hpc_ng.Kernel.Pool.{Pool, allocated}
use hsn_capture_hpc_ng.Kernel.Clock.{is_timed_out, is_connected}
use hsn_capture_hpc_ng.Kernel.Status.{
  nt_success, status_success, status_unsuccessful, status_buffer_too_small,
}
use hsn_capture_hpc_ng.EventQueue.{Packet, Copied, Delivery, clear_queue, fill_buffer, copy_raises}

-- REG_NOTIFY_CLASS, as far as the driver tells the classes apart.
pub data NotifyClass : Type 0 where
  post_create_key post_open_key pre_delete_key delete_value_key pre_set_value_key : NotifyClass
  enumerate_key enumerate_value_key query_key query_value_key key_handle_close : NotifyClass
  other_class : ℕ → NotifyClass

-- REGISTRY_EVENT; the data is the flexible array registryData, in bytes.
pub record RegistryEvent : Type 0 where
  pub event_type : NotifyClass
  pub time : ℕ
  pub process_id : ℕ
  pub data_type : ℕ
  pub data_length : ℕ
  pub path_length : ℕ
  pub registry_data : List ℕ

-- On the 32-bit systems that the driver is built for: an enum, eight shorts, a handle, three ULONGs.
abbrev pub sizeof_registry_event : ℕ
sizeof_registry_event = 36

-- registryEventSize, a UINT.
abbrev pub registry_event_size : RegistryEvent → ℕ
registry_event_size e = (sizeof_registry_event + e.path_length + e.data_length) % 0x100000000

-- CAPTURE_REGISTRY_MANAGER, what the driver has registered with the kernel, and the pool.
pub record Registry : Type 0 where
  pub device : Bool
  pub link : Bool
  pub callback : Bool
  pub timer : Bool
  pub ready : Bool
  pub queued_registry_events : List (Packet RegistryEvent)
  pub last_contact_time : ℕ
  pub pool : Pool

pub update_last_contact_time : ℕ → Registry → Registry
update_last_contact_time now r = record r { last_contact_time = now }

-- DriverEntry. The arguments are the answers of IoCreateDevice, IoCreateSymbolicLink,
-- CmRegisterCallback and of the clock.
pub driver_entry : ℕ → ℕ → ℕ → ℕ → Registry → ℕ × Registry
unfolding update_last_contact_time
driver_entry created linked registered now r =
    let r1 : Registry = record r { device = true; ready = false } in
    let r2 : Registry = record r1 { link = true; queued_registry_events = [] } in
    let r3 : Registry = update_last_contact_time now (record r2 { callback = true }) in
    if nt_success created
    then (if nt_success linked
        then (if nt_success registered
            then (status_success, record r3 { timer = true; ready = true })
            else (registered, r2))
        else (linked, record r1 { device = false }))
    else (created, r)

-- The loop of ConnectionChecker and of UnloadDriver.
clear_registry_events : Registry → Registry
clear_registry_events r = record r {
  queued_registry_events = [];
  pool = clear_queue r.queued_registry_events r.pool;
}

pub connection_checker : ℕ → Registry → Registry
unfolding clear_registry_events
connection_checker now r =
    if is_timed_out now r.last_contact_time then clear_registry_events r else r

-- Where the driver was ready, its timer and its callback are taken back.
stop_capture : Bool → Registry → Registry
stop_capture true r = record r { timer = false; callback = false; ready = false }
stop_capture false r = r

pub unload_driver : Registry → Registry
unfolding clear_registry_events stop_capture
unload_driver r = record (clear_registry_events (stop_capture r.ready r)) {
  link = false;
  device = false;
}

-- What a request is answered: the status, the number of bytes, and what was copied.
pub record Reply : Type 0 where
  pub status : ℕ
  pub information : ℕ
  pub output : List (Copied RegistryEvent)

-- HandleIoctlGetRegEvents. The arguments are whether there is a user buffer, the code of the
-- exception that ProbeForWrite raises, if it does, and OutputBufferLength.
pub handle_ioctl_get_reg_events : Bool → Option ℕ → ℕ → Registry → Reply × Registry
handle_ioctl_get_reg_events false probe len r =
    (record { status = status_unsuccessful; information = 0; output = [] }, r)
handle_ioctl_get_reg_events true (some code) len r =
    (record { status = code; information = 0; output = [] }, r)
handle_ioctl_get_reg_events true none len r =
    let d : Delivery RegistryEvent =
      fill_buffer registry_event_size sizeof_registry_event len 0 r.queued_registry_events r.pool in
    if leb sizeof_registry_event len
    then (
      record { status = status_success; information = d.used; output = d.output },
      record r { queued_registry_events = d.queue; pool = d.pool },
    )
    else (
      record { status = status_buffer_too_small; information = sizeof_registry_event; output = [] },
      r,
    )

-- What is left of HandleIoctlGetRegEvents where copying an event raises the exception `code`: the
-- packet that is lost, the reply and the driver.
raised :
    ℕ
    → Registry
    → Packet RegistryEvent × (List (Packet RegistryEvent) × Pool)
    → Packet RegistryEvent × (Reply × Registry)
raised code r (p, (q, m)) = (
  p,
  (
    record { status = code; information = 0; output = [] },
    record r { queued_registry_events = q; pool = m },
  ),
)

-- HandleIoctlGetRegEvents on a buffer that is writable when it is probed, where copying the event behind
-- the first `n` raises the exception `code`; `none` where no such copy is made.
pub handle_ioctl_get_reg_events_raised :
    (n code len : ℕ) → Registry → Option (Packet RegistryEvent × (Reply × Registry))
unfolding raised
handle_ioctl_get_reg_events_raised n code len r =
    if leb sizeof_registry_event len
    then elim (copy_raises registry_event_size sizeof_registry_event len n 0
        r.queued_registry_events r.pool) [ none ↦ none | some x ↦ some (raised code r x) ]
    else none

-- The control codes that KDispatchIoctl tells apart.
pub data ControlCode : Type 0 where
  get_regevents other_code : ControlCode

-- What KDispatchIoctl completes the request with.
complete : Reply → Reply
complete a = record a { information = if nt_success a.status then a.information else 0 }

pub k_dispatch_ioctl : ControlCode → Bool → Option ℕ → ℕ → ℕ → Registry → Reply × Registry
unfolding update_last_contact_time complete
k_dispatch_ioctl get_regevents buffer probe len now r =
    let (a, r') = handle_ioctl_get_reg_events buffer probe len (update_last_contact_time now r) in
    (complete a, r')
k_dispatch_ioctl other_code buffer probe len now r =
    (complete (record { status = status_unsuccessful; information = 0; output = [] }), r)

-- KDispatchIoctl, for a request for events in which a copy raises an exception.
unfoldable pub k_dispatch_ioctl_raised :
    (n code len now : ℕ) → Registry → Option (Packet RegistryEvent × (Reply × Registry))
unfolding update_last_contact_time complete handle_ioctl_get_reg_events_raised
k_dispatch_ioctl_raised n code len now r =
    elim (handle_ioctl_get_reg_events_raised n code len (update_last_contact_time now r)) [
      | none ↦ none
      | some (p, (a, r')) ↦ some (p, (complete a, r'))
    ]

-- QueueRegistryEvent, for an event in the block given; the packet's allocation is the second
-- argument. `none`: the driver writes through a null pointer.
pub queue_registry_event : ℕ → Option ℕ → ℕ → RegistryEvent → Registry → Option (Bool × Registry)
queue_registry_event now none b e r =
    if is_connected now r.last_contact_time then none else some (false, r)
queue_registry_event now (some a) b e r =
    let p : Packet RegistryEvent = record { block = a; event_block = b; event = e } in
    if is_connected now r.last_contact_time
    then some (
      true,
      record r {
        queued_registry_events = r.queued_registry_events ++ p ∷ [];
        pool = allocated (some a) r.pool;
      },
    )
    else some (false, r)
