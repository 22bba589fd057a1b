-- ===== src/Client/Analyzer/Ready.antt =====
-- Each operation of the analyzer (Analyzer.cpp) keeps a dumper where packets are captured.
use hsn_capture_hpc_ng.Base.{
  ℕ, List, [], ◌∷◌, Option, none, some, Bool, true, false, not, ◌&&◌, ◌||◌, is_same, is_same_eq,
  ◌==◌, ◌≡◌, refl, subst, inl, inr, Bool-cases,
}
use hsn_capture_hpc_ng.Client.Options.{OptionsMap, get_option}
use hsn_capture_hpc_ng.Client.Visitor.{
  visitation_prestart, visitation_start, visitation_finish, visitation_postfinish,
}
use hsn_capture_hpc_ng.Client.Analyzer.{
  capture_network_packets_option, malicious_option, benign_option, server_option, true_text,
  PacketDumper, no_dumper, deleted_dumper, dumper, Act, deletes_logs, deletes_collected, compresses,
  uploads, copies_created, reports_finish, reports_error, Analyzer, act, act_if, is_set, is_cleared,
  on_packets_changed, on_option_changed, connect_on_option_changed, new_analyzer, use_dumper, start,
  is_sent, drop_packets, send_kept, send_logs, end_logs, detached, stop, update,
}
use hsn_capture_hpc_ng.Client.Analyzer.Dumper.{
  IsMatched, IsReady, IsNearlyReady, created-IsMatched, on_option_changed-IsReady,
  on_option_changed-IsNearlyReady,
}

connect-IsReady :
    (options names : OptionsMap) (a : Analyzer)
    → IsReady a
    → IsReady (connect_on_option_changed options names a)
unfolding connect_on_option_changed
connect-IsReady options [] a h = h
connect-IsReady options ((name, value) ∷ names) a h =
    connect-IsReady options names (on_option_changed options name a)
      (on_option_changed-IsReady options name a h)

-- The option that asks for packets makes a dumper.
packets-IsReady :
    (options : OptionsMap) (a : Analyzer)
    → is_set capture_network_packets_option options ≡ true
    → IsNearlyReady a
    → IsReady (on_option_changed options capture_network_packets_option a)
unfolding on_option_changed on_packets_changed
packets-IsReady options a e h =
    rw (e, on_option_changed)
      (created-IsMatched a.capture_network_packets a.network_packet_dumper h)

connect_asked-IsReady :
    (options names : OptionsMap) (a : Analyzer)
    → is_set capture_network_packets_option options ≡ true
    → get_option capture_network_packets_option names ≡ true_text
    → IsNearlyReady a
    → IsReady (connect_on_option_changed options names a)
unfolding connect_on_option_changed get_option
connect_asked-IsReady options [] a e g h = absurd cc
connect_asked-IsReady options ((name, value) ∷ names) a e g h =
    elim (Bool-cases (is_same capture_network_packets_option name)) [
      | inl f ↦ connect-IsReady options names (on_option_changed options name a) (
          subst (λ (x : List ℕ). IsReady (on_option_changed options x a))
            (is_same_eq capture_network_packets_option name f) (packets-IsReady options a e h))
      | inr f ↦
          connect_asked-IsReady options names (on_option_changed options name a) e (rw f at g)
            (on_option_changed-IsNearlyReady options name a h)
    ]

pub new_analyzer-IsReady : (options : OptionsMap) → IsReady (new_analyzer options)
unfolding new_analyzer is_set
new_analyzer-IsReady options = elim (Bool-cases (is_set capture_network_packets_option options)) [
  | inl e ↦
      connect_asked-IsReady options options _ e
        (is_same_eq (get_option capture_network_packets_option options) true_text e) (rw e tt)
  | inr e ↦ connect-IsReady options options _ (rw e tt)
]

-- There is a result, and the dumper is matched in it.
abbrev pub ReadyAfter : Option Analyzer → Type 0
ReadyAfter none = ⊥
ReadyAfter (some a) = IsReady a

use_dumper-IsMatched :
    (c running : Bool) (d : PacketDumper)
    → IsMatched c d
    → (d' : PacketDumper) × ((use_dumper c running d ≡ some d') × IsMatched c d')
unfolding use_dumper
use_dumper-IsMatched true running (dumper old) h = (dumper running, (refl, tt))
use_dumper-IsMatched false running no_dumper h = (no_dumper, (refl, tt))
use_dumper-IsMatched false running deleted_dumper h = elim h [ ]
use_dumper-IsMatched false running (dumper old) h = elim h [ ]
use_dumper-IsMatched true running no_dumper h = elim h [ ]
use_dumper-IsMatched true running deleted_dumper h = elim h [ ]

drop_packets-ReadyAfter :
    (b c : Bool) (d : PacketDumper) (a : Analyzer)
    → IsMatched c d
    → IsReady a
    → ReadyAfter (drop_packets b d a)
unfolding drop_packets
drop_packets-ReadyAfter false c d a h k = k
drop_packets-ReadyAfter true c no_dumper a h k = k
drop_packets-ReadyAfter true c (dumper running) a h k = k
drop_packets-ReadyAfter true true deleted_dumper a h k = elim h [ ]
drop_packets-ReadyAfter true false deleted_dumper a h k = elim h [ ]

act_if-IsReady : (b : Bool) (x : Act) (a : Analyzer) → IsReady a → IsReady (act_if b x a)
act_if-IsReady true x a h = h
act_if-IsReady false x a h = h

-- One step more on what is ready.
then_ReadyAfter :
    (o : Option Analyzer) (f : Analyzer → Option Analyzer)
    → ReadyAfter o
    → ((a : Analyzer) → IsReady a → ReadyAfter (f a))
    → ReadyAfter (elim o [ none ↦ none | some a ↦ f a ])
then_ReadyAfter none f h k = elim h [ ]
then_ReadyAfter (some a) f h k = k a h

send_kept-IsReady :
    (options : OptionsMap) (is_connected : Bool) (a : Analyzer)
    → IsReady a
    → IsReady (send_kept options is_connected a)
unfolding send_kept
send_kept-IsReady options is_connected a h =
    let a1 : Analyzer = act_if (not a.malicious) deletes_collected a in
    let h1 : IsReady a1 = act_if-IsReady (not a.malicious) deletes_collected a h in
    elim (Bool-cases (is_sent options a1)) [
      | inl e ↦ rw e (act_if-IsReady is_connected uploads (act compresses a1) h1)
      | inr e ↦ rw e h1
    ]

send_logs-ReadyAfter :
    (options : OptionsMap) (is_connected : Bool) (a : Analyzer)
    → IsReady a
    → ReadyAfter (send_logs options is_connected a)
unfolding send_logs
send_logs-ReadyAfter options is_connected a h =
    let unwanted : Bool =
      (a.malicious && is_cleared malicious_option options)
      || (not a.malicious && is_cleared benign_option options) in
    elim (Bool-cases (a.collect_modified_files || a.capture_network_packets)) [
      | inl e ↦
          rw (e, send_logs)
            (then_ReadyAfter (drop_packets unwanted a.network_packet_dumper a)
              (λ a1. some (send_kept options is_connected a1))
              (drop_packets-ReadyAfter unwanted a.capture_network_packets a.network_packet_dumper a
                h h)
              (λ a1 h1. send_kept-IsReady options is_connected a1 h1))
      | inr e ↦ rw (e, send_logs) h
    ]

end_logs-ReadyAfter :
    (options : OptionsMap) (is_connected : Bool) (a : Analyzer)
    → IsReady a
    → ReadyAfter (end_logs options is_connected a)
unfolding end_logs
end_logs-ReadyAfter options is_connected a h =
    elim (Bool-cases (is_same (get_option server_option options) [])) [
      | inl e ↦ rw (e, end_logs) h
      | inr e ↦
          rw (e, end_logs)
            (then_ReadyAfter (send_logs options is_connected a) (λ a1. some (act deletes_logs a1))
              (send_logs-ReadyAfter options is_connected a h) (λ a1 h1. h1))
    ]

pub start-ReadyAfter : (a : Analyzer) → IsReady a → ReadyAfter (start a)
unfolding start
start-ReadyAfter a h =
    let (d, (e, k)) =
      use_dumper-IsMatched a.capture_network_packets true a.network_packet_dumper h in
    rw (e, start) k

pub stop-ReadyAfter :
    (options : OptionsMap) (is_connected : Bool) (a : Analyzer)
    → IsReady a
    → ReadyAfter (stop options is_connected a)
unfolding stop detached
stop-ReadyAfter options is_connected a h =
    let (d, (e, k)) =
      use_dumper-IsMatched a.capture_network_packets false a.network_packet_dumper h in
    rw (e, stop)
      (end_logs-ReadyAfter options is_connected (detached d a)
        (act_if-IsReady a.collect_modified_files copies_created _ k))

pub update-ReadyAfter :
    (options : OptionsMap) (is_connected : Bool) (code : ℕ) (a : Analyzer)
    → IsReady a
    → ReadyAfter (update options is_connected code a)
unfolding update
update-ReadyAfter options is_connected code a h = elim (Bool-cases (code == visitation_prestart)) [
  | inl e ↦ rw (e, update) (start-ReadyAfter a h)
  | inr e ↦ elim (Bool-cases (code == visitation_start)) [
    | inl f ↦ rw (e, f, update) h
    | inr f ↦ elim (Bool-cases (code == visitation_finish)) [
      | inl g ↦
          rw (e, f, g, update)
            (then_ReadyAfter (stop options is_connected a)
              (λ b. some (act (reports_finish b.malicious) b))
              (stop-ReadyAfter options is_connected a h) (λ b k. k))
      | inr g ↦ elim (Bool-cases (code == visitation_postfinish)) [
        | inl l ↦ rw (e, f, g, l, update) h
        | inr l ↦
            rw (e, f, g, l, update)
              (then_ReadyAfter (stop options is_connected a)
                (λ b. some (act (reports_error code b.malicious) b))
                (stop-ReadyAfter options is_connected a h) (λ b k. k))
      ]
    ]
  ]
]
