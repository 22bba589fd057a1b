-- ===== src/Client/FileMonitor/Reports.antt =====
-- What FileMonitor::run (FileMonitor.cpp) reports of the events that the driver sends.
use hsn_capture_hpc_ng.Base.{
  ℕ, ◌≤◌, ◌<◌, ◌≡◌, refl, sym, ◌∙◌, List, [], ◌∷◌, ◌++◌, append-nil, append_assoc, Bool, false,
  Option, none, some, length,
}
use hsn_capture_hpc_ng.EventQueue.Clearing.{events}
use hsn_capture_hpc_ng.File.{
  FileEvent, FileManager, get_file_events, Setup, message, message_callback,
}
use hsn_capture_hpc_ng.File.Invariant.{AllWellFormed}
use hsn_capture_hpc_ng.File.Message.{receive_file_events, receive-message_callback}
use hsn_capture_hpc_ng.Client.Prefix.{filter_map, prepend}
use hsn_capture_hpc_ng.Client.FileMonitor.{
  Report, FileMonitor, Environment, report_of, handled, handle, handle_all,
}

module _ (env : Environment) where
  -- The events of one answer of the driver; `none` if an offset is not the start of an event.
  pub file_round : Option (List FileEvent) → FileMonitor → Option FileMonitor
  file_round none s = none
  file_round (some es) s = some (handle_all env es s)

  handled-reports :
      (e : FileEvent) (s : FileMonitor) (o : Option Report) (rs : List Report)
      → (handled env e s o).reports ++ rs ≡ s.reports ++ prepend o rs
  unfolding handled
  handled-reports e s none rs = refl
  handled-reports e s (some r) rs = append_assoc s.reports (r ∷ []) rs

  handle_all-reports :
      (es : List FileEvent) (s : FileMonitor)
      → (handle_all env es s).reports ≡ s.reports ++ filter_map (report_of env) es
  unfolding handle_all handle filter_map
  handle_all-reports [] s = sym (append-nil s.reports)
  handle_all-reports (e ∷ es) s =
      handle_all-reports es (handle env e s)
      ∙ handled-reports e s (report_of env e) (filter_map (report_of env) es)

  -- From the driver to the signals, for a whole command, a buffer of less than 2^32 bytes and
  -- well-formed events, while the thread runs, and on fuel for the whole queue: what a round signals
  -- are the reports of the events that the driver has taken off its queue, in their order, but for those
  -- that have no name or no path, or are left out.
  pub file_round_signals :
      (should_stop : ℕ → Bool) (fuel size len : ℕ) (setup : Setup) (answer : Option ℕ) (now : ℕ)
      (f : FileManager) (s : FileMonitor)
      → ((o : ℕ) → should_stop o ≡ false)
      → length (events f.queued_file_events) ≤ fuel
      → 4 ≤ size
      → len < 0x100000000
      → AllWellFormed (events f.queued_file_events)
      → let (a, f1) = message_callback (message size none get_file_events) len setup answer now f in
        (sent : List FileEvent) × (t : FileMonitor) × (file_round
            (receive_file_events should_stop fuel a)
            s
          ≡ some t)
        × (t.reports ≡ s.reports ++ filter_map (report_of env) sent)
        × (sent ++ events f1.queued_file_events ≡ events f.queued_file_events)
  unfolding file_round
  file_round_signals should_stop fuel size len setup answer now f s runs enough whole small w =
      let v =
        receive-message_callback should_stop fuel size len setup answer now f runs enough whole
          small w in
      (v.0, handle_all env v.0 s, rw v.1 refl, handle_all-reports v.0 s, v.2)
