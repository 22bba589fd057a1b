-- ===== src/Client/RegistryMonitor/Tests.antt =====
-- The registry monitor at concrete inputs.
use hsn_capture_hpc_ng.Base.{ℕ, ◌≡◌, refl, arith, List, [], ◌∷◌, ◌++◌, none, some, true, false}
use hsn_capture_hpc_ng.EventQueue.Clearing.{events}
use hsn_capture_hpc_ng.Registry.{RegistryEvent, k_dispatch_ioctl, get_regevents}
use hsn_capture_hpc_ng.Registry.Request.{receive_registry_events}
use hsn_capture_hpc_ng.Registry.Tests.Data.{deleted, opened, two_waiting, two_waiting-IsValid}
use hsn_capture_hpc_ng.Client.Prefix.{strip_prefix, replace_prefix, filter_map}
use hsn_capture_hpc_ng.Client.RegistryMonitor.{Environment, report_of}
use hsn_capture_hpc_ng.Client.RegistryMonitor.Hives.{
  classes, hkcr, hkcu, object_names, replace_prefix-user,
}
use hsn_capture_hpc_ng.Client.RegistryMonitor.Reports.{registry_round, registry_round_signals}

-- The key of a user whose identifier ends in 5.
abbrev user : List ℕ
user = 0x5C ∷ b'U' ∷ 0x5C ∷ b'5' ∷ []

abbrev env : Environment
env = record {
  process_path = λ pid. [];
  object_names = object_names (some user);
  is_event_allowed = λ name process path. false;
}

registry_round_signals_example :
    let (a, r1) = k_dispatch_ioctl get_regevents true none 50 7 two_waiting in
    (sent : List RegistryEvent) × (registry_round env (receive_registry_events (λ o. false) 2 a) []
      ≡ some ([] ++ filter_map (report_of env) sent))
    × (sent ++ events r1.queued_registry_events ≡ deleted ∷ opened ∷ [])
registry_round_signals_example =
    registry_round_signals env (λ o. false) 2 50 7 two_waiting [] (λ o. refl) (omega arith)
      (omega arith) (omega arith) two_waiting-IsValid.well_formed

-- Another user's key, whose identifier ends in 51.
replace_prefix-user_example :
    replace_prefix (object_names (some user)) (user ++ b'1' ∷ []) ≡ hkcu ++ b'1' ∷ []
unfolding strip_prefix
replace_prefix-user_example = replace_prefix-user user (b'1' ∷ [])

classes_of_user : replace_prefix (object_names (some user)) (user ++ classes) ≡ hkcr
unfolding replace_prefix object_names
classes_of_user = refl
