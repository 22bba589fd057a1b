-- ===== src/Client/Analyzer.antt =====
-- Analyzer.cpp: what surrounds a visit. The options' names and values are those that it compares with.
use hsn_capture_hpc_ng.Base.{
  ℕ, suc, List, [], ◌∷◌, Option, none, some, Bool, true, false, not, ◌&&◌, ◌||◌, if◌then◌else◌,
  is_same, ◌==◌,
}
use hsn_capture_hpc_ng.Client.Options.{OptionsMap, get_option}
use hsn_capture_hpc_ng.Client.Visitor.{
  visitation_prestart, visitation_start, visitation_finish, visitation_postfinish,
}
mod Names
pub mod Dumper
pub mod Ready
pub mod Safety
pub mod Reports
pub mod Visits
mod Tests
pub use Names.*

-- networkPacketDumper: NULL, an object that captures or not, or one that was deleted.
pub data PacketDumper : Type 0 where
  no_dumper deleted_dumper : PacketDumper
  dumper : Bool → PacketDumper

-- What is done about the logs, and what is sent to the server.
pub data Act : Type 0 where
  copies_created deletes_packets deletes_collected compresses uploads deletes_logs : Act
  reports_start : Bool → Act
  reports_finish : Bool → Act
  reports_error : ℕ → Bool → Act
  reports_event : ℕ → Act

-- Analyzer: its flags, whether it is connected to the monitors, whether the file monitor collects
-- files, how often the exclusion lists were to be cleared, and what it did, the last first.
pub record Analyzer : Type 0 where
  pub malicious : Bool
  pub capture_network_packets : Bool
  pub network_packet_dumper : PacketDumper
  pub collect_modified_files : Bool
  pub connected : Bool
  pub collecting : Bool
  pub clearings : ℕ
  pub acts : List Act

abbrev pub act : Act → Analyzer → Analyzer
act x a = record a { acts = x ∷ a.acts }

abbrev pub act_if : Bool → Act → Analyzer → Analyzer
act_if true x a = act x a
act_if false x a = a

-- getOption(...) == L"true".
pub is_set : List ℕ → OptionsMap → Bool
is_set option options = is_same (get_option option options) true_text

pub is_cleared : List ℕ → OptionsMap → Bool
is_cleared option options = is_same (get_option option options) false_text

-- A dumper is created where there is none.
pub created : PacketDumper → PacketDumper
created no_dumper = dumper false
created deleted_dumper = deleted_dumper
created (dumper running) = dumper running

pub discarded : PacketDumper → PacketDumper
discarded no_dumper = no_dumper
discarded deleted_dumper = deleted_dumper
discarded (dumper running) = deleted_dumper

-- The first branch of onOptionChanged, by whether the value is true.
pub on_packets_changed : OptionsMap → Bool → Analyzer → Analyzer
unfolding is_set created discarded
on_packets_changed options true a = record a {
  capture_network_packets = true;
  network_packet_dumper = created a.network_packet_dumper;
}
on_packets_changed options false a =
    if not a.capture_network_packets
      && (not (is_set malicious_option options) && not (is_set benign_option options))
    then record a {
      capture_network_packets = false;
      network_packet_dumper = discarded a.network_packet_dumper;
    }
    else a

-- Analyzer::onOptionChanged.
pub on_option_changed : OptionsMap → List ℕ → Analyzer → Analyzer
unfolding on_packets_changed
on_option_changed options option a =
    if is_same option malicious_option
      || is_same option benign_option
      || is_same option capture_network_packets_option
    then on_packets_changed options (is_set option options) a
    else (if is_same option collect_modified_files_option
        then record a {
          collect_modified_files = is_set option options;
          collecting = is_set option options;
        }
        else (if is_same option send_exclusion_lists_option && is_set option options
            then record a { clearings = suc a.clearings }
            else a))

-- connect_onOptionChanged: the listener is called for every option that is set.
pub connect_on_option_changed : OptionsMap → OptionsMap → Analyzer → Analyzer
unfolding on_option_changed
connect_on_option_changed options [] a = a
connect_on_option_changed options ((name, value) ∷ others) a =
    connect_on_option_changed options others (on_option_changed options name a)

-- Analyzer::Analyzer.
pub new_analyzer : OptionsMap → Analyzer
unfolding connect_on_option_changed
new_analyzer options = connect_on_option_changed options options (record {
  malicious = false;
  capture_network_packets = is_set capture_network_packets_option options;
  network_packet_dumper = no_dumper;
  collect_modified_files = false;
  connected = false;
  collecting = false;
  clearings = 0;
  acts = [];
})

-- start or stop of the dumper, where it is to be used: `none` is a call through a bad pointer.
pub use_dumper : Bool → Bool → PacketDumper → Option PacketDumper
use_dumper false running d = some d
use_dumper true running (dumper old) = some (dumper running)
use_dumper true running no_dumper = none
use_dumper true running deleted_dumper = none

-- Analyzer::start.
pub start : Analyzer → Option Analyzer
unfolding use_dumper
start a = elim (use_dumper a.capture_network_packets true a.network_packet_dumper) [
  | none ↦ none
  | some d ↦ some (record a {
    malicious = false;
    network_packet_dumper = d;
    connected = true;
    collecting = a.collect_modified_files || a.collecting;
  })
]

-- The test in stop for the upload of the logs.
pub is_sent : OptionsMap → Analyzer → Bool
is_sent options a =
    (a.malicious && a.collect_modified_files)
    || (not a.malicious && is_set benign_option options)
    || (a.malicious && is_set malicious_option options)

-- The packets are deleted where there is a dumper, and its kind of visit is not to be kept; a deleted
-- one is a bad pointer.
pub drop_packets : Bool → PacketDumper → Analyzer → Option Analyzer
drop_packets false d a = some a
drop_packets true no_dumper a = some a
drop_packets true (dumper running) a = some (act deletes_packets a)
drop_packets true deleted_dumper a = none

-- The collected files are kept of a malicious visit, and what is kept is compressed and uploaded;
-- compressLogDirectory succeeds, or leaves the program.
pub send_kept : OptionsMap → Bool → Analyzer → Analyzer
unfolding is_sent
send_kept options is_connected a =
    let a1 : Analyzer = act_if (not a.malicious) deletes_collected a in
    if is_sent options a1 then act_if is_connected uploads (act compresses a1) else a1

-- What was captured or collected, where the client has a server.
pub send_logs : OptionsMap → Bool → Analyzer → Option Analyzer
unfolding drop_packets send_kept is_cleared
send_logs options is_connected a =
    if a.collect_modified_files || a.capture_network_packets
    then elim (drop_packets
        ((a.malicious && is_cleared malicious_option options)
          || (not a.malicious && is_cleared benign_option options))
        a.network_packet_dumper a) [
          | none ↦ none
          | some a1 ↦ some (send_kept options is_connected a1)
        ]
    else some a

-- The part of stop behind the monitors.
pub end_logs : OptionsMap → Bool → Analyzer → Option Analyzer
unfolding send_logs
end_logs options is_connected a =
    if is_same (get_option server_option options) []
    then some a
    else elim (send_logs options is_connected a) [
      | none ↦ none
      | some a1 ↦ some (act deletes_logs a1)
    ]

-- The part of stop on the monitors.
pub detached : PacketDumper → Analyzer → Analyzer
detached d a = act_if a.collect_modified_files copies_created (record a {
  network_packet_dumper = d;
  connected = false;
  collecting = if a.collect_modified_files then false else a.collecting;
})

-- Analyzer::stop.
pub stop : OptionsMap → Bool → Analyzer → Option Analyzer
unfolding use_dumper detached end_logs
stop options is_connected a =
    elim (use_dumper a.capture_network_packets false a.network_packet_dumper) [
      | none ↦ none
      | some d ↦ end_logs options is_connected (detached d a)
    ]

-- Analyzer::update, with what is sent last.
pub update : OptionsMap → Bool → ℕ → Analyzer → Option Analyzer
unfolding start stop
update options is_connected code a =
    if code == visitation_prestart
    then start a
    else (if code == visitation_start
        then some (act (reports_start a.malicious) a)
        else (if code == visitation_finish
            then elim (stop options is_connected a) [
              | none ↦ none
              | some b ↦ some (act (reports_finish b.malicious) b)
            ]
            else (if code == visitation_postfinish
                then some a
                else elim (stop options is_connected a) [
                  | none ↦ none
                  | some b ↦ some (act (reports_error code b.malicious) b)
                ])))

-- onProcessEvent, onRegistryEvent and onFileEvent, while they are connected; `id` tells the event.
pub on_event : ℕ → Analyzer → Analyzer
on_event id a = if a.connected then act (reports_event id) (record a { malicious = true }) else a
