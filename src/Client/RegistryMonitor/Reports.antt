-- ===== src/Client/RegistryMonitor/Reports.antt =====
-- What RegistryMonitor::run (RegistryMonitor.cpp) reports of the events that the driver sends.
use hsn_capture_hpc_ng.Base.{
  ℕ, ◌≤◌, ◌<◌, ◌≡◌, refl, sym, ◌∙◌, List, [], ◌∷◌, ◌++◌, append-nil, append_assoc, Bool, true,
  false, Option, none, some, length,
}
use hsn_capture_hpc_ng.EventQueue.Clearing.{events}
use hsn_capture_hpc_ng.Registry.{
  RegistryEvent, Registry, sizeof_registry_event, k_dispatch_ioctl, get_regevents,
}
use hsn_capture_hpc_ng.Registry.Invariant.{AllWellFormed}
use hsn_capture_hpc_ng.Registry.Request.{receive_registry_events, receive-k_dispatch_ioctl}
use hsn_capture_hpc_ng.Client.Prefix.{filter_map, prepend}
use hsn_capture_hpc_ng.Client.RegistryMonitor.{Report, Environment, report_of, handle, handle_all}

module _ (env : Environment) where
  -- The events of one answer of the driver; `none` if an offset is not the start of an event.
  pub registry_round : Option (List RegistryEvent) → List Report → Option (List Report)
  registry_round none reports = none
  registry_round (some es) reports = some (handle_all env es reports)

  handled-reports :
      (o : Option Report) (reports rs : List Report)
      → elim o [ none ↦ reports | some r ↦ reports ++ (r ∷ []) ] ++ rs ≡ reports ++ prepend o rs
  handled-reports none reports rs = refl
  handled-reports (some r) reports rs = append_assoc reports (r ∷ []) rs

  handle_all-reports :
      (es : List RegistryEvent) (reports : List Report)
      → handle_all env es reports ≡ reports ++ filter_map (report_of env) es
  unfolding handle_all handle filter_map
  handle_all-reports [] reports = sym (append-nil reports)
  handle_all-reports (e ∷ es) reports =
      handle_all-reports es (handle env e reports)
      ∙ handled-reports (report_of env e) reports (filter_map (report_of env) es)

  -- From the driver to the signals, for a writable buffer of at least the fixed part of an event and less
  -- than 2^32 bytes, and well-formed events, while the thread runs, and on fuel for the whole queue: what
  -- a round signals are the reports of the events that the driver has taken off its queue, in their
  -- order, but for those that are left out.
  pub registry_round_signals :
      (should_stop : ℕ → Bool) (fuel len now : ℕ) (r : Registry) (reports : List Report)
      → ((o : ℕ) → should_stop o ≡ false)
      → length (events r.queued_registry_events) ≤ fuel
      → sizeof_registry_event ≤ len
      → len < 0x100000000
      → AllWellFormed (events r.queued_registry_events)
      → let (a, r1) = k_dispatch_ioctl get_regevents true none len now r in
        (sent : List RegistryEvent) × (registry_round
            (receive_registry_events should_stop fuel a)
            reports
          ≡ some (reports ++ filter_map (report_of env) sent))
        × (sent ++ events r1.queued_registry_events ≡ events r.queued_registry_events)
  unfolding registry_round
  registry_round_signals should_stop fuel len now r reports runs enough room small w =
      let v = receive-k_dispatch_ioctl should_stop fuel len now r runs enough room small w in
      (v.0, rw v.1 (rw (handle_all-reports v.0 reports) refl), v.2)
