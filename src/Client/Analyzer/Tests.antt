-- ===== src/Client/Analyzer/Tests.antt =====
-- Runs of the analyzer.
use hsn_capture_hpc_ng.Base.{List, [], ◌∷◌, Option, none, some, true, false, ◌≡◌, refl}
use hsn_capture_hpc_ng.Client.Options.{OptionsMap, get_option}
use hsn_capture_hpc_ng.Client.Analyzer.{
  capture_network_packets_option, true_text, false_text, Act, reports_start, reports_finish,
  reports_event, Analyzer, new_analyzer, on_option_changed, update, on_event,
}
use hsn_capture_hpc_ng.Client.Analyzer.Dumper.{IsReady}
use hsn_capture_hpc_ng.Client.Analyzer.Safety.{constructed, update-Returns}
use hsn_capture_hpc_ng.Client.Visitor.{VisitEvent, Visited}
use hsn_capture_hpc_ng.Client.Analyzer.Ready.{ReadyAfter}

-- The packets are asked for, and the client has no server.
abbrev options : OptionsMap
options = (capture_network_packets_option, true_text) ∷ []

-- What is done in a visit with one event.
abbrev one_event : Analyzer → Option Analyzer
one_event a = elim (update options true 0x10000101 a) [
  | none ↦ none
  | some b ↦ elim (update options true 0x10000102 b) [
    | none ↦ none
    | some c ↦ update options true 0x10000103 (on_event 5 c)
  ]
]

acts_of : Option Analyzer → List Act
acts_of none = []
acts_of (some a) = a.acts

visited :
    acts_of (one_event (new_analyzer options))
    ≡ reports_finish true ∷ reports_event 5 ∷ reports_start false ∷ []
unfolding acts_of new_analyzer update on_event get_option
visited = refl

-- Turning the packets off leaves them on.
still_on :
    (on_option_changed
      ((capture_network_packets_option, false_text) ∷ [])
      capture_network_packets_option
      (new_analyzer options)).capture_network_packets
    ≡ true
unfolding new_analyzer on_option_changed get_option
still_on = refl

update-Returns_example :
    IsReady (new_analyzer options)
    × ReadyAfter (update options true 0x10000101 (new_analyzer options))
update-Returns_example =
    update-Returns options true 0x10000101 (new_analyzer options) (constructed options)

-- A plugin that throws, without an error code.
abbrev throwing : Visited
throwing = record { algorithm = []; errors = []; threw = true }

abbrev nothing_visited : VisitEvent
nothing_visited = record {
  urls = [];
  identifier = [];
  program = [];
  algorithm = [];
  url_group = false;
  malicious = false;
  error_code = 0;
}
