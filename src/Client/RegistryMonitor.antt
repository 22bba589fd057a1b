-- ===== src/Client/RegistryMonitor.antt =====
-- RegistryMonitor.cpp: what RegistryMonitor::run does with the events of the driver.
use hsn_capture_hpc_ng.Base.{ℕ, List, [], ◌∷◌, ◌++◌, Bool, not, Option, none, some, if◌then◌else◌}
use hsn_capture_hpc_ng.Registry.{
  NotifyClass, post_create_key, post_open_key, pre_delete_key, delete_value_key, pre_set_value_key,
  enumerate_key, enumerate_value_key, query_key, query_value_key, key_handle_close, other_class,
  RegistryEvent,
}
use hsn_capture_hpc_ng.Registry.Callback.Contents.{read_path}
use hsn_capture_hpc_ng.Client.Prefix.{replace_prefix}
pub mod Hives
pub mod Reports
mod Tests

-- signal_onRegistryEvent, with its arguments; the time before Time::timefieldToString writes it out.
pub record Report : Type 0 where
  pub event_name : List ℕ
  pub time : ℕ
  pub process_id : ℕ
  pub process_path : List ℕ
  pub registry_path : List ℕ

-- What run asks of others: getProcessPath, objectNameMap and isEventAllowed.
pub record Environment : Type 0 where
  pub process_path : ℕ → List ℕ
  pub object_names : List (List ℕ × List ℕ)
  pub is_event_allowed : List ℕ → List ℕ → List ℕ → Bool

-- L"Key" and L"ValueKey".
abbrev key : List ℕ
key = b'K' ∷ b'e' ∷ b'y' ∷ []

abbrev value_key : List ℕ
value_key = b'V' ∷ b'a' ∷ b'l' ∷ b'u' ∷ b'e' ∷ key

-- getRegistryEventName.
unfoldable pub get_registry_event_name : NotifyClass → List ℕ
get_registry_event_name post_create_key = b'C' ∷ b'r' ∷ b'e' ∷ b'a' ∷ b't' ∷ b'e' ∷ key
get_registry_event_name post_open_key = b'O' ∷ b'p' ∷ b'e' ∷ b'n' ∷ key
get_registry_event_name pre_delete_key = b'D' ∷ b'e' ∷ b'l' ∷ b'e' ∷ b't' ∷ b'e' ∷ key
get_registry_event_name delete_value_key = b'D' ∷ b'e' ∷ b'l' ∷ b'e' ∷ b't' ∷ b'e' ∷ value_key
get_registry_event_name pre_set_value_key = b'S' ∷ b'e' ∷ b't' ∷ value_key
get_registry_event_name enumerate_key =
    b'E' ∷ b'n' ∷ b'u' ∷ b'm' ∷ b'e' ∷ b'r' ∷ b'a' ∷ b't' ∷ b'e' ∷ key
get_registry_event_name enumerate_value_key =
    b'E' ∷ b'n' ∷ b'u' ∷ b'm' ∷ b'e' ∷ b'r' ∷ b'a' ∷ b't' ∷ b'e' ∷ value_key
get_registry_event_name query_key = b'Q' ∷ b'u' ∷ b'e' ∷ b'r' ∷ b'y' ∷ key
get_registry_event_name query_value_key = b'Q' ∷ b'u' ∷ b'e' ∷ b'r' ∷ b'y' ∷ value_key
get_registry_event_name key_handle_close = b'C' ∷ b'l' ∷ b'o' ∷ b's' ∷ b'e' ∷ key
get_registry_event_name (other_class n) =
    b'<' ∷ b'U' ∷ b'N' ∷ b'K' ∷ b'N' ∷ b'O' ∷ b'W' ∷ b'N' ∷ b'>' ∷ []

module _ (env : Environment) where
  -- The report of an event, if it is not left out.
  unfoldable pub report_of : RegistryEvent → Option Report
  unfolding get_registry_event_name replace_prefix
  report_of e =
      let name : List ℕ = get_registry_event_name e.event_type in
      let process : List ℕ = env.process_path e.process_id in
      let path : List ℕ = replace_prefix env.object_names (read_path e) in
      if env.is_event_allowed name process path
      then none
      else some (record {
        event_name = name;
        time = e.time;
        process_id = e.process_id;
        process_path = process;
        registry_path = path;
      })

  -- One round of the loop over the events, with what was signalled.
  pub handle : RegistryEvent → List Report → List Report
  unfolding report_of
  handle e reports = elim (report_of e) [ none ↦ reports | some r ↦ reports ++ (r ∷ []) ]

  pub handle_all : List RegistryEvent → List Report → List Report
  unfolding handle
  handle_all [] reports = reports
  handle_all (e ∷ es) reports = handle_all es (handle e reports)
