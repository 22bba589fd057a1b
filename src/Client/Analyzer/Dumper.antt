-- ===== src/Client/Analyzer/Dumper.antt =====
-- The analyzer's use of the packet dumper (Analyzer.cpp), whatever options the server sets.
use hsn_capture_hpc_ng.Base.{
  ℕ, List, Bool, true, false, not, ◌&&◌, ◌||◌, is_same, ◌≡◌, inl, inr, Bool-cases,
}
use hsn_capture_hpc_ng.Client.Options.{OptionsMap}
use hsn_capture_hpc_ng.Client.Analyzer.{
  capture_network_packets_option, malicious_option, benign_option, collect_modified_files_option,
  send_exclusion_lists_option, PacketDumper, no_dumper, deleted_dumper, dumper, Analyzer, is_set,
  created, discarded, on_packets_changed, on_option_changed,
}

-- There is a dumper exactly where packets are captured.
abbrev pub IsMatched : Bool → PacketDumper → Type 0
IsMatched true (dumper running) = Unit {0}
IsMatched true no_dumper = ⊥
IsMatched true deleted_dumper = ⊥
IsMatched false no_dumper = Unit {0}
IsMatched false (dumper running) = ⊥
IsMatched false deleted_dumper = ⊥

abbrev pub IsReady : Analyzer → Type 0
IsReady a = IsMatched a.capture_network_packets a.network_packet_dumper

-- The same while the constructor goes through the options: the dumper may be missing still.
abbrev pub IsNearlyMatched : Bool → PacketDumper → Type 0
IsNearlyMatched true no_dumper = Unit {0}
IsNearlyMatched true (dumper running) = Unit {0}
IsNearlyMatched true deleted_dumper = ⊥
IsNearlyMatched false no_dumper = Unit {0}
IsNearlyMatched false (dumper running) = ⊥
IsNearlyMatched false deleted_dumper = ⊥

pub created-IsMatched :
    (c : Bool) (d : PacketDumper) → IsNearlyMatched c d → IsMatched true (created d)
unfolding created
created-IsMatched true no_dumper h = tt
created-IsMatched true (dumper running) h = tt
created-IsMatched false no_dumper h = tt
created-IsMatched false deleted_dumper h = elim h [ ]
created-IsMatched false (dumper running) h = elim h [ ]
created-IsMatched true deleted_dumper h = elim h [ ]

pub IsMatched-IsNearlyMatched : (c : Bool) (d : PacketDumper) → IsMatched c d → IsNearlyMatched c d
IsMatched-IsNearlyMatched true (dumper running) h = tt
IsMatched-IsNearlyMatched false no_dumper h = tt
IsMatched-IsNearlyMatched false deleted_dumper h = elim h [ ]
IsMatched-IsNearlyMatched false (dumper running) h = elim h [ ]
IsMatched-IsNearlyMatched true no_dumper h = elim h [ ]
IsMatched-IsNearlyMatched true deleted_dumper h = elim h [ ]

-- A dumper is deleted only where there is none.
discarded-IsMatched :
    (c b : Bool) (d : PacketDumper)
    → (not c && b) ≡ true
    → IsNearlyMatched c d
    → IsMatched false (discarded d)
unfolding discarded
discarded-IsMatched true b d e h = absurd cc
discarded-IsMatched false b no_dumper e h = tt
discarded-IsMatched false b deleted_dumper e h = elim h [ ]
discarded-IsMatched false b (dumper running) e h = elim h [ ]

on_packets_changed-IsReady :
    (options : OptionsMap) (set : Bool) (a : Analyzer)
    → IsReady a
    → IsReady (on_packets_changed options set a)
unfolding on_packets_changed
on_packets_changed-IsReady options true a h =
    created-IsMatched a.capture_network_packets a.network_packet_dumper
      (IsMatched-IsNearlyMatched a.capture_network_packets a.network_packet_dumper h)
on_packets_changed-IsReady options false a h =
    let others : Bool =
      not (is_set malicious_option options) && not (is_set benign_option options) in
    elim (Bool-cases (not a.capture_network_packets && others)) [
      | inl e ↦ rw e (
          discarded-IsMatched a.capture_network_packets others a.network_packet_dumper e
            (IsMatched-IsNearlyMatched a.capture_network_packets a.network_packet_dumper h))
      | inr e ↦ rw e h
    ]

abbrev pub IsNearlyReady : Analyzer → Type 0
IsNearlyReady a = IsNearlyMatched a.capture_network_packets a.network_packet_dumper

on_packets_changed-IsNearlyReady :
    (options : OptionsMap) (set : Bool) (a : Analyzer)
    → IsNearlyReady a
    → IsNearlyReady (on_packets_changed options set a)
unfolding on_packets_changed
on_packets_changed-IsNearlyReady options true a h =
    IsMatched-IsNearlyMatched true (created a.network_packet_dumper)
      (created-IsMatched a.capture_network_packets a.network_packet_dumper h)
on_packets_changed-IsNearlyReady options false a h =
    let others : Bool =
      not (is_set malicious_option options) && not (is_set benign_option options) in
    elim (Bool-cases (not a.capture_network_packets && others)) [
      | inl e ↦ rw e (
          IsMatched-IsNearlyMatched false (discarded a.network_packet_dumper)
            (discarded-IsMatched a.capture_network_packets others a.network_packet_dumper e h))
      | inr e ↦ rw e h
    ]

-- Another option than those of the packets leaves the dumper as it is.
on_option_changed_keeps :
    (P : Bool → PacketDumper → Type 0) (options : OptionsMap) (option : List ℕ) (a : Analyzer)
    → ((set : Bool)
        → P
            (on_packets_changed options set a).capture_network_packets
            (on_packets_changed options set a).network_packet_dumper)
    → P a.capture_network_packets a.network_packet_dumper
    → P
        (on_option_changed options option a).capture_network_packets
        (on_option_changed options option a).network_packet_dumper
unfolding on_option_changed
on_option_changed_keeps P options option a packets h =
    elim (Bool-cases (
      is_same option malicious_option
      || is_same option benign_option
      || is_same option capture_network_packets_option)) [
        | inl e ↦ rw (e, on_option_changed) (packets (is_set option options))
        | inr e ↦ elim (Bool-cases (is_same option collect_modified_files_option)) [
          | inl f ↦ rw (e, f, on_option_changed) h
          | inr f ↦
              elim (Bool-cases
                (is_same option send_exclusion_lists_option && is_set option options)) [
                  | inl g ↦ rw (e, f, g, on_option_changed) h
                  | inr g ↦ rw (e, f, g, on_option_changed) h
                ]
        ]
      ]

pub on_option_changed-IsReady :
    (options : OptionsMap) (option : List ℕ) (a : Analyzer)
    → IsReady a
    → IsReady (on_option_changed options option a)
on_option_changed-IsReady options option a h =
    on_option_changed_keeps IsMatched options option a
      (λ set. on_packets_changed-IsReady options set a h) h

pub on_option_changed-IsNearlyReady :
    (options : OptionsMap) (option : List ℕ) (a : Analyzer)
    → IsNearlyReady a
    → IsNearlyReady (on_option_changed options option a)
on_option_changed-IsNearlyReady options option a h =
    on_option_changed_keeps IsNearlyMatched options option a
      (λ set. on_packets_changed-IsNearlyReady options set a h) h
