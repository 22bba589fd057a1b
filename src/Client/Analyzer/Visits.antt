-- ===== src/Client/Analyzer/Visits.antt =====
-- A whole visit: the notifications of Visitor::run (Visitor.cpp) and what Analyzer.cpp reports.
use hsn_capture_hpc_ng.Base.{
  ℕ, List, [], ◌∷◌, Option, none, some, Bool, true, false, not, if◌then◌else◌, ◌==◌, map, take,
  drop, ◌≡◌,
}
use hsn_capture_hpc_ng.Client.Options.{OptionsMap}
use hsn_capture_hpc_ng.Client.Visitor.{
  VisitEvent, Visited, notifications, set_error_codes, visitation_ok, visitation_finish,
  visitation_postfinish, visitation_exception,
}
use hsn_capture_hpc_ng.Client.Analyzer.{Act, reports_error, reports_event, Analyzer}
use hsn_capture_hpc_ng.Client.Analyzer.Dumper.{IsReady}
use hsn_capture_hpc_ng.Client.Analyzer.Reports.{reported, updates, on_events, end_report}

abbrev pub any_event : List ℕ → Bool
any_event [] = false
any_event (id ∷ ids) = true

-- The reports of events, in front of earlier ones.
abbrev pub noted : List ℕ → List Act → List Act
noted [] xs = xs
noted (id ∷ ids) xs = noted ids (reports_event id ∷ xs)

record IsBegun (a : Analyzer) (malicious : Bool) (reports : List Act) : Type 0 where
  ready : IsReady a
  verdict : a.malicious ≡ malicious
  listening : a.connected ≡ true
  reports_ok : reported a.acts ≡ reports

-- How a visit ended, and the notifications of the end.
abbrev pub outcome_of : Visited → VisitEvent → ℕ
outcome_of g e =
    let code : ℕ = (set_error_codes g.errors (record e { algorithm = g.algorithm })).error_code in
    if not (code == visitation_ok) then code else visitation_finish

abbrev end_codes : Bool → ℕ → List ℕ
end_codes true outcome = visitation_exception ∷ outcome ∷ visitation_postfinish ∷ []
end_codes false outcome = outcome ∷ visitation_postfinish ∷ []

-- The codes of the notifications.
abbrev pub codes_of : Visited → VisitEvent → List ℕ
codes_of g e = map (λ (n : ℕ × VisitEvent). n.0) (notifications (some g) e)

-- A visit with the events that the monitors have between its start and its end.
abbrev pub visit : OptionsMap → Bool → List ℕ → List ℕ → Analyzer → Option Analyzer
visit options is_connected ids codes a = elim (updates options is_connected (take 2 codes) a) [
  | none ↦ none
  | some b ↦ updates options is_connected (drop 2 codes) (on_events ids b)
]

-- What is reported at the end: an exception besides the outcome.
abbrev pub end_reports : Bool → ℕ → Bool → List Act → List Act
end_reports true outcome m xs = end_report outcome m ∷ reports_error visitation_exception m ∷ xs
end_reports false outcome m xs = end_report outcome m ∷ xs
