-- ===== src/Registry/Tests.antt =====
-- The registry driver at concrete inputs.
pub mod Data
use hsn_capture_hpc_ng.Base.{
  ℕ, ◌+◌, ◌<◌, ◌≤◌, ◌≡◌, refl, ◌⊎◌, inr, arith, List, [], ◌∷◌, ◌++◌, Option, none, some, Bool, true,
  false, length,
}
use hsn_capture_hpc_ng.Kernel.Pool.{Pool, Holds}
use hsn_capture_hpc_ng.Kernel.Status.{nt_success}
use hsn_capture_hpc_ng.EventQueue.{copy_raises}
use hsn_capture_hpc_ng.EventQueue.Clearing.{events}
use hsn_capture_hpc_ng.EventQueue.Sending.{Sends}
use hsn_capture_hpc_ng.Registry.{
  Registry, RegistryEvent, get_regevents, pre_set_value_key, registry_event_size, driver_entry,
  unload_driver, connection_checker, k_dispatch_ioctl, k_dispatch_ioctl_raised,
  queue_registry_event,
}
use hsn_capture_hpc_ng.Registry.Invariant.{IsValid, Queued}
use hsn_capture_hpc_ng.Registry.Request.{
  k_dispatch_ioctl-Sends, no_room, receive_registry_events, receive-k_dispatch_ioctl,
}
use hsn_capture_hpc_ng.Registry.Lifecycle.{
  IsClean, Reach, here, next, check, request, unload_driver-Reach,
}
use Data.{deleted, opened, two_waiting, two_waiting-IsValid, unloaded}

k_dispatch_ioctl-Sends_example :
    let (a, r') = k_dispatch_ioctl get_regevents true none 50 7 two_waiting in
    Sends registry_event_size 50
      (deleted ∷ opened ∷ [])
      a.information
      a.output
      (events r'.queued_registry_events)
    × (a.status ≡ 0)
    × (r'.last_contact_time ≡ 7)
k_dispatch_ioctl-Sends_example =
    k_dispatch_ioctl-Sends 50 7 two_waiting (omega arith) (omega arith)
      two_waiting-IsValid.well_formed

-- Copying the first event raises an exception: it is lost, and the second stays in the queue.
raised_at_first :
    k_dispatch_ioctl_raised 0 0xC0000005 100 7 two_waiting
    ≡ some (
      record { block = 1; event_block = 2; event = deleted },
      (
        record { status = 0xC0000005; information = 0; output = [] },
        record two_waiting {
          queued_registry_events = record { block = 3; event_block = 4; event = opened } ∷ [];
          last_contact_time = 7;
        },
      ),
    )
unfolding k_dispatch_ioctl_raised copy_raises
raised_at_first = refl

unload_driver-Reach_example :
    Holds (unload_driver (connection_checker 40 (driver_entry 0 0 0 7 unloaded).1)).pool (9 ∷ [])
unload_driver-Reach_example =
    unload_driver-Reach (9 ∷ []) [] 0 0 0 7 unloaded _ (refl, λ a. refl) refl refl refl
      (next here (check 40 (driver_entry 0 0 0 7 unloaded).1))
