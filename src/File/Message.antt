-- ===== src/File/Message.antt =====
-- MessageCallback of the file driver, and the inner loop of FileMonitor::run in
-- Client/FileMonitor.cpp, which takes the answer apart.
use hsn_capture_hpc_ng.Base.{
  ℕ, ◌+◌, ◌*◌, ◌%◌, ◌≤◌, ◌<◌, ◌≡◌, refl, List, [], ◌++◌, Option, none, some, Bool, true, false,
  arith, le→leb, length, ap, ◌∙◌,
}
use hsn_capture_hpc_ng.Kernel.Status.{status_invalid_parameter}
use hsn_capture_hpc_ng.Kernel.Text.{
  UnicodeString, unicode_string_cat, unicode_string_cat_fits, maximum_length-cat,
}
use hsn_capture_hpc_ng.EventQueue.Clearing.{events}
use hsn_capture_hpc_ng.EventQueue.Sending.{Sends, fill_buffer-Sends, receive, receive-Sends}
use hsn_capture_hpc_ng.File.{
  FileEvent, FileManager, sizeof_file_event, file_event_size, get_file_events, setup_monitor, Setup,
  sizeof_setup, kernel_prefix, kernel_prefix_maximum, log_string, collect_in, message, Reply,
  message_callback,
}
use hsn_capture_hpc_ng.File.Invariant.{AllWellFormed, AllWellFormed-size}

-- What the length returned says, with 0 where none is written.
abbrev pub returned_bytes : Reply → ℕ
returned_bytes a = elim a.returned [ none ↦ 0 | some n ↦ n ]

-- A whole command that asks for events succeeds, however small the buffer of less than 2^32 bytes:
-- where the queued events are well formed, the longest prefix of the queue that fits is sent, side by
-- side, its length is returned, and the rest is left. The time of contact is noted.
pub message_callback-Sends :
    (size len : ℕ) (s : Setup) (answer : Option ℕ) (now : ℕ) (f : FileManager)
    → 4 ≤ size
    → len < 0x100000000
    → AllWellFormed (events f.queued_file_events)
    → let (a, f') = message_callback (message size none get_file_events) len s answer now f in
      Sends file_event_size len
        (events f.queued_file_events)
        (returned_bytes a)
        a.output
        (events f'.queued_file_events)
      × (a.status ≡ 0)
      × (f'.last_contact_time ≡ now)
unfolding message_callback
message_callback-Sends size len s answer now f whole small w = rw (le→leb 4 size whole) (
  fill_buffer-Sends file_event_size sizeof_file_event len f.queued_file_events f.pool (omega arith)
      small (AllWellFormed-size _ w),
  refl,
  refl,
)

-- FileMonitor::run, behind FilterSendMessage: the events that are looked at, in order; `none` if an
-- offset is not the start of an event. The fuel bounds the number of events.
pub receive_file_events : (ℕ → Bool) → ℕ → Reply → Option (List FileEvent)
receive_file_events should_stop fuel a =
    receive file_event_size sizeof_file_event should_stop fuel a.output (returned_bytes a)

-- The round trip from the driver to the monitor, for a whole command, a buffer of less than 2^32
-- bytes and well-formed events: while its thread runs, and on fuel for the whole queue, the monitor
-- looks at the very events that the driver has taken off its queue, in their order.
pub receive-message_callback :
    (should_stop : ℕ → Bool) (fuel size len : ℕ) (s : Setup) (answer : Option ℕ) (now : ℕ)
    (f : FileManager)
    → ((o : ℕ) → should_stop o ≡ false)
    → length (events f.queued_file_events) ≤ fuel
    → 4 ≤ size
    → len < 0x100000000
    → AllWellFormed (events f.queued_file_events)
    → let (a, f') = message_callback (message size none get_file_events) len s answer now f in
      (sent : List FileEvent) × (receive_file_events should_stop fuel a ≡ some sent)
      × (sent ++ events f'.queued_file_events ≡ events f.queued_file_events)
unfolding receive_file_events
receive-message_callback should_stop fuel size len s answer now f runs enough whole small w =
    let v = (message_callback-Sends size len s answer now f whole small w).0 in
    (
      v.sent,
      receive-Sends file_event_size sizeof_file_event should_stop fuel v runs (omega arith) small
          (AllWellFormed-size _ w) enough,
      v.whole,
    )

-- Where the size said is enough, the log directory is the one asked for, behind the prefix of
-- kernel paths.
log_string_fits :
    (s : Setup)
    → 2 * length s.log_directory ≤ s.log_directory_size + 4
    → s.log_directory_size + 12 < 0x10000
    → (log_string s).characters ≡ kernel_prefix ++ s.log_directory
unfolding log_string
log_string_fits s room small =
    let size : ℕ = (kernel_prefix_maximum + s.log_directory_size + 2) % 0x10000 in
    let empty : UnicodeString = record { characters = []; maximum_length = size } in
    let first = unicode_string_cat_fits empty kernel_prefix (omega arith) in
    unicode_string_cat_fits (unicode_string_cat empty kernel_prefix) s.log_directory
      (omega (arith, ap length first, maximum_length-cat empty kernel_prefix))
    ∙ ap (λ (cs : List ℕ). cs ++ s.log_directory) first

-- A whole command that turns the collection on, with a log directory that the size said has room
-- for, below 2^16 bytes, and an allocation that is answered, does so, and is answered all the same
-- that its parameter is invalid.
pub message_callback_setup :
    (size : ℕ) (s : Setup) (b now : ℕ) (f : FileManager)
    → 4 ≤ size
    → s.collect ≡ true
    → 2 * length s.log_directory ≤ s.log_directory_size + 4
    → s.log_directory_size + 12 < 0x10000
    → let (a, f') =
        message_callback (message size none setup_monitor) sizeof_setup s (some b) now f in
      (f'.collect_deleted_files ≡ true)
      × (f'.log_block ≡ some b)
      × (f'.log_directory.characters ≡ kernel_prefix ++ s.log_directory)
      × (a.status ≡ status_invalid_parameter)
unfolding message_callback collect_in
message_callback_setup size s b now f whole on room small =
    rw (le→leb 4 size whole) (simp on (refl, refl, log_string_fits s room small, refl))
