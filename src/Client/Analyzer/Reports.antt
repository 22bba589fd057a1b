-- ===== src/Client/Analyzer/Reports.antt =====
-- What the analyzer (Analyzer.cpp) reports of a visit.
use hsn_capture_hpc_ng.Base.{
  ℕ, List, [], ◌∷◌, Option, none, some, Bool, true, false, not, ◌&&◌, ◌||◌, if◌then◌else◌, is_same,
  ◌==◌, ◌≡◌, refl, ap, ◌∙◌, subst, inl, inr, Bool-cases, Option-cases,
}
use hsn_capture_hpc_ng.Client.Options.{OptionsMap, get_option}
use hsn_capture_hpc_ng.Client.Visitor.{
  visitation_prestart, visitation_start, visitation_finish, visitation_postfinish,
}
use hsn_capture_hpc_ng.Client.Analyzer.{
  malicious_option, benign_option, server_option, PacketDumper, no_dumper, deleted_dumper, dumper,
  Act, deletes_logs, deletes_packets, deletes_collected, compresses, uploads, copies_created,
  reports_start, reports_finish, reports_error, reports_event, Analyzer, act, act_if, is_cleared,
  use_dumper, is_sent, drop_packets, send_kept, send_logs, end_logs, detached, stop, update,
  on_event,
}
use hsn_capture_hpc_ng.Client.Analyzer.Dumper.{IsReady}
use hsn_capture_hpc_ng.Client.Analyzer.Ready.{ReadyAfter, stop-ReadyAfter}

-- What goes to the server as a message.
abbrev pub reported : List Act → List Act
reported [] = []
reported (copies_created ∷ xs) = reported xs
reported (deletes_packets ∷ xs) = reported xs
reported (deletes_collected ∷ xs) = reported xs
reported (compresses ∷ xs) = reported xs
reported (uploads ∷ xs) = reported xs
reported (deletes_logs ∷ xs) = reported xs
reported (reports_start m ∷ xs) = reports_start m ∷ reported xs
reported (reports_finish m ∷ xs) = reports_finish m ∷ reported xs
reported (reports_error code m ∷ xs) = reports_error code m ∷ reported xs
reported (reports_event id ∷ xs) = reports_event id ∷ reported xs

-- The same verdict and the same reports.
abbrev Agrees : Analyzer → Analyzer → Type 0
Agrees a b = (b.malicious ≡ a.malicious) × (reported b.acts ≡ reported a.acts)

abbrev AgreesAfter : Analyzer → Option Analyzer → Type 0
AgreesAfter a none = Unit {0}
AgreesAfter a (some b) = Agrees a b

then_AgreesAfter :
    (a : Analyzer) (o : Option Analyzer) (f : Analyzer → Option Analyzer)
    → AgreesAfter a o
    → ((b : Analyzer) → Agrees a b → AgreesAfter a (f b))
    → AgreesAfter a (elim o [ none ↦ none | some b ↦ f b ])
then_AgreesAfter a none f h k = tt
then_AgreesAfter a (some b) f h k = k b h

act_if-Agrees :
    (a b : Analyzer) (on : Bool) (x : Act)
    → ((xs : List Act) → reported (x ∷ xs) ≡ reported xs)
    → Agrees a b
    → Agrees a (act_if on x b)
act_if-Agrees a b true x s h = (h.0, s b.acts ∙ h.1)
act_if-Agrees a b false x s h = h

drop_packets-AgreesAfter :
    (a : Analyzer) (on : Bool) (d : PacketDumper) (b : Analyzer)
    → Agrees a b
    → AgreesAfter a (drop_packets on d b)
unfolding drop_packets
drop_packets-AgreesAfter a false d b h = h
drop_packets-AgreesAfter a true no_dumper b h = h
drop_packets-AgreesAfter a true (dumper running) b h = h
drop_packets-AgreesAfter a true deleted_dumper b h = tt

send_kept-Agrees :
    (options : OptionsMap) (is_connected : Bool) (a b : Analyzer)
    → Agrees a b
    → Agrees a (send_kept options is_connected b)
unfolding send_kept
send_kept-Agrees options is_connected a b h =
    let b1 : Analyzer = act_if (not b.malicious) deletes_collected b in
    let h1 : Agrees a b1 = act_if-Agrees a b (not b.malicious) deletes_collected (λ xs. refl) h in
    elim (Bool-cases (is_sent options b1)) [
      | inl e ↦ rw e (act_if-Agrees a (act compresses b1) is_connected uploads (λ xs. refl) h1)
      | inr e ↦ rw e h1
    ]

send_logs-AgreesAfter :
    (options : OptionsMap) (is_connected : Bool) (a b : Analyzer)
    → Agrees a b
    → AgreesAfter a (send_logs options is_connected b)
unfolding send_logs
send_logs-AgreesAfter options is_connected a b h =
    let unwanted : Bool =
      (b.malicious && is_cleared malicious_option options)
      || (not b.malicious && is_cleared benign_option options) in
    elim (Bool-cases (b.collect_modified_files || b.capture_network_packets)) [
      | inl e ↦
          rw (e, send_logs)
            (then_AgreesAfter a (drop_packets unwanted b.network_packet_dumper b)
              (λ b1. some (send_kept options is_connected b1))
              (drop_packets-AgreesAfter a unwanted b.network_packet_dumper b h)
              (λ b1 h1. send_kept-Agrees options is_connected a b1 h1))
      | inr e ↦ rw (e, send_logs) h
    ]

end_logs-AgreesAfter :
    (options : OptionsMap) (is_connected : Bool) (a b : Analyzer)
    → Agrees a b
    → AgreesAfter a (end_logs options is_connected b)
unfolding end_logs
end_logs-AgreesAfter options is_connected a b h =
    elim (Bool-cases (is_same (get_option server_option options) [])) [
      | inl e ↦ rw (e, end_logs) h
      | inr e ↦
          rw (e, end_logs)
            (then_AgreesAfter a (send_logs options is_connected b)
              (λ b1. some (act deletes_logs b1)) (send_logs-AgreesAfter options is_connected a b h)
              (λ b1 h1. h1))
    ]

stop-AgreesAfter :
    (options : OptionsMap) (is_connected : Bool) (a : Analyzer)
    → AgreesAfter a (stop options is_connected a)
unfolding stop detached
stop-AgreesAfter options is_connected a =
    elim (Option-cases (use_dumper a.capture_network_packets false a.network_packet_dumper)) [
      | inl e ↦ rw (e, stop) tt
      | inr (d, e) ↦
          rw (e, stop)
            (end_logs-AgreesAfter options is_connected a (detached d a)
              (act_if-Agrees a _ a.collect_modified_files copies_created (λ xs. refl) (refl, refl)))
    ]

pub cons_act : {x y : Act} {xs ys : List Act} → x ≡ y → xs ≡ ys → x ∷ xs ≡ y ∷ ys
cons_act e f = cc

stop_result :
    (options : OptionsMap) (is_connected : Bool) (a : Analyzer)
    → IsReady a
    → (b : Analyzer) × ((stop options is_connected a ≡ some b) × (IsReady b × Agrees a b))
stop_result options is_connected a h = elim (Option-cases (stop options is_connected a)) [
  | inl e ↦ absurd (subst ReadyAfter e (stop-ReadyAfter options is_connected a h))
  | inr (b, e) ↦ (
    b,
    (
      e,
      (
        subst ReadyAfter e (stop-ReadyAfter options is_connected a h),
        subst (AgreesAfter a) e (stop-AgreesAfter options is_connected a),
      ),
    ),
  )
]

-- The notifications one after the other, and the events.
abbrev pub updates : OptionsMap → Bool → List ℕ → Analyzer → Option Analyzer
updates options is_connected [] a = some a
updates options is_connected (code ∷ codes) a = elim (update options is_connected code a) [
  | none ↦ none
  | some b ↦ updates options is_connected codes b
]

abbrev pub on_events : List ℕ → Analyzer → Analyzer
on_events [] a = a
on_events (id ∷ ids) a = on_events ids (on_event id a)

-- The report of the end of a visit.
abbrev pub end_report : ℕ → Bool → Act
end_report code malicious =
    if code == visitation_finish then reports_finish malicious else reports_error code malicious

-- A code that ends a visit.
abbrev pub IsEnd : ℕ → Type 0
IsEnd code =
    ((code == visitation_prestart) ≡ false)
    × (((code == visitation_start) ≡ false) × ((code == visitation_postfinish) ≡ false))

pub update_end :
    (options : OptionsMap) (is_connected : Bool) (code : ℕ) (a : Analyzer)
    → IsEnd code
    → IsReady a
    → (b : Analyzer) × ((update options is_connected code a ≡ some b)
        × (IsReady b
            × ((b.malicious ≡ a.malicious)
                × (reported b.acts ≡ end_report code a.malicious ∷ reported a.acts))))
unfolding update
update_end options is_connected code a (p, (q, r)) h =
    let (b, (e, (k, (same, reports)))) = stop_result options is_connected a h in
    elim (Bool-cases (code == visitation_finish)) [
      | inl f ↦ (
        act (reports_finish b.malicious) b,
        (
          rw (p, q, f, e, update) refl,
          (k, (same, rw f (cons_act (ap reports_finish same) reports))),
        ),
      )
      | inr f ↦ (
        act (reports_error code b.malicious) b,
        (
          rw (p, q, f, r, e, update) refl,
          (k, (same, rw f (cons_act (ap (reports_error code) same) reports))),
        ),
      )
    ]
