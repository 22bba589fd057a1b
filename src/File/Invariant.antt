-- ===== src/File/Invariant.antt =====
-- What holds of the file driver between its entry points, and that they keep it.
use hsn_capture_hpc_ng.Base.{
  ℕ, ◌+◌, ◌-◌, ◌*◌, ◌<◌, ◌≡◌, inl, inr, List, [], ◌∷◌, ◌++◌, Option, none, some, Bool, true, false,
  arith, leb, ◌==◌, length, Bool-cases,
}
use native.Mathlib.Nat.{mod-eq_of_lt}
use hsn_capture_hpc_ng.Kernel.Pool.{Holds, Holds-past, block_of}
use hsn_capture_hpc_ng.Kernel.Clock.{is_timed_out, is_connected}
use hsn_capture_hpc_ng.Kernel.Text.{IsBounded, unicode_string_cat-IsBounded}
use hsn_capture_hpc_ng.EventQueue.{Packet}
use hsn_capture_hpc_ng.EventQueue.Clearing.{
  blocks, events, clear_queue-Holds, queue_packet-Holds, free_beside-Holds, allocate_beside-Holds,
  free_if_beside-Holds,
}
use hsn_capture_hpc_ng.EventQueue.Filling.{
  AllAtLeast, waiting, fill_buffer-Holds, fill_buffer-Delivers,
}
use hsn_capture_hpc_ng.File.{
  FileEvent, FileManager, sizeof_file_event, file_event_size, free_queued_events,
  connection_checker, queue_file_event, settle, post_file_operation, drop_log_directory,
  filter_unload, driver_entry, connect, disconnect, Command, get_file_events, setup_monitor,
  other_command, Setup, sizeof_setup, log_string, collect_in, set_up, Input, null_input, message,
  dispatch_command, message_callback,
}

-- An event's length is that of its path, and its size is not cut off to 32 bits.
abbrev pub IsWellFormed : FileEvent → Type 0
IsWellFormed e =
    (e.path_length ≡ 2 * length e.path) × (sizeof_file_event + e.path_length < 0x100000000)

abbrev pub AllWellFormed : List FileEvent → Type 0
AllWellFormed [] = Unit {0}
AllWellFormed (e ∷ es) = IsWellFormed e × AllWellFormed es

-- The pool holds the blocks of the queue and of the log directory and, besides, the others; the
-- log directory's string is within its block.
pub record IsValid (others : List ℕ) (f : FileManager) : Type 0 where
  pub owned : Holds f.pool (blocks f.queued_file_events ++ (block_of f.log_block ++ others))
  pub well_formed : AllWellFormed (events f.queued_file_events)
  pub log_bounded : IsBounded f.log_directory

pub AllWellFormed-size :
    (es : List FileEvent) → AllWellFormed es → AllAtLeast file_event_size sizeof_file_event es
AllWellFormed-size [] h = tt
AllWellFormed-size (e ∷ es) h = (
  rw (mod-eq_of_lt {n = sizeof_file_event + e.path_length} {m = 0x100000000} h.0.1) (omega arith),
  AllWellFormed-size es h.1,
)

AllWellFormed-waiting :
    (room : ℕ) (es : List FileEvent)
    → AllWellFormed es
    → AllWellFormed (waiting file_event_size room es)
AllWellFormed-waiting room [] h = tt
AllWellFormed-waiting room (e ∷ es) h = elim (Bool-cases (leb (file_event_size e) room)) [
  | inl fits ↦ rw fits (AllWellFormed-waiting (room - file_event_size e) es h.1)
  | inr large ↦ rw large h
]

AllWellFormed-snoc :
    (q : List (Packet FileEvent)) (p : Packet FileEvent)
    → AllWellFormed (events q)
    → IsWellFormed p.event
    → AllWellFormed (events (q ++ p ∷ []))
AllWellFormed-snoc [] p h w = (w, tt)
AllWellFormed-snoc (x ∷ q) p h w = (h.0, AllWellFormed-snoc q p h.1 w)

pub free_queued_events-IsValid :
    (others : List ℕ) (f : FileManager) → IsValid others f → IsValid others (free_queued_events f)
unfolding free_queued_events
free_queued_events-IsValid others f v = record {
  owned = clear_queue-Holds f.queued_file_events f.pool (block_of f.log_block ++ others) v.owned;
  well_formed = tt;
  log_bounded = v.log_bounded;
}

pub drop_log_directory-IsValid :
    (others : List ℕ) (f : FileManager) → IsValid others f → IsValid others (drop_log_directory f)
unfolding drop_log_directory
drop_log_directory-IsValid others f v = record {
  owned = free_if_beside-Holds f.log_block f.queued_file_events f.pool others v.owned;
  well_formed = v.well_formed;
  log_bounded = v.log_bounded;
}

pub connection_checker-IsValid :
    (others : List ℕ) (now : ℕ) (f : FileManager)
    → IsValid others f
    → IsValid others (connection_checker now f)
unfolding connection_checker
connection_checker-IsValid others now f v =
    elim (Bool-cases (is_timed_out now f.last_contact_time)) [
      | inl old ↦ rw old (free_queued_events-IsValid others f v)
      | inr recent ↦ rw recent v
    ]

log_string-IsBounded : (s : Setup) → IsBounded (log_string s)
unfolding log_string
log_string-IsBounded s =
    unicode_string_cat-IsBounded _ s.log_directory (unicode_string_cat-IsBounded _ _ (omega arith))

collect_in-IsValid :
    (others : List ℕ) (s : Setup) (answer : Option ℕ) (f : FileManager)
    → IsValid others f
    → IsValid others (collect_in s answer f)
unfolding collect_in
collect_in-IsValid others s none f v = record {
  owned = free_if_beside-Holds f.log_block f.queued_file_events f.pool others v.owned;
  well_formed = v.well_formed;
  log_bounded = v.log_bounded;
}
collect_in-IsValid others s (some b) f v = record {
  owned =
      allocate_beside-Holds b f.queued_file_events _ others
        (free_if_beside-Holds f.log_block f.queued_file_events f.pool others v.owned);
  well_formed = v.well_formed;
  log_bounded = log_string-IsBounded s;
}

set_up-IsValid :
    (others : List ℕ) (s : Setup) (answer : Option ℕ) (f : FileManager)
    → IsValid others f
    → IsValid others (set_up s answer f)
unfolding set_up
set_up-IsValid others s answer f v = elim (Bool-cases s.collect) [
  | inl on ↦ simp on (collect_in-IsValid others s answer f v)
  | inr off ↦ simp off (drop_log_directory-IsValid others f v)
]

dispatch_command-IsValid :
    (others : List ℕ) (c : Command) (len : ℕ) (s : Setup) (answer : Option ℕ) (now : ℕ)
    (f : FileManager)
    → len < 0x100000000
    → IsValid others f
    → IsValid others (dispatch_command c len s answer now f).1
unfolding dispatch_command
dispatch_command-IsValid others get_file_events len s answer now f h v = record {
  owned =
      fill_buffer-Holds file_event_size sizeof_file_event len 0 f.queued_file_events f.pool
        (block_of f.log_block ++ others) v.owned;
  well_formed =
      rw
        (fill_buffer-Delivers file_event_size sizeof_file_event len 0 f.queued_file_events f.pool
          (omega arith) h (omega arith) (AllWellFormed-size _ v.well_formed)).queue_eq
        (AllWellFormed-waiting _ _ v.well_formed);
  log_bounded = v.log_bounded;
}
dispatch_command-IsValid others setup_monitor len s answer now f h v =
    elim (Bool-cases (len == sizeof_setup)) [
      | inl e ↦ rw e (set_up-IsValid others s answer f v)
      | inr e ↦ rw e v
    ]
dispatch_command-IsValid others (other_command c) len s answer now f h v = v

-- A message keeps the driver valid.
pub message_callback-IsValid :
    (others : List ℕ) (i : Input) (len : ℕ) (s : Setup) (answer : Option ℕ) (now : ℕ)
    (f : FileManager)
    → len < 0x100000000
    → IsValid others f
    → IsValid others (message_callback i len s answer now f).1
unfolding message_callback
message_callback-IsValid others null_input len s answer now f h v = v
message_callback-IsValid others (message size (some code) c) len s answer now f h v = v
message_callback-IsValid others (message size none c) len s answer now f h v =
    elim (Bool-cases (leb 4 size)) [
      | inl e ↦ rw e (dispatch_command-IsValid others c len s answer now f h v)
      | inr e ↦ rw e v
    ]

-- The block that a completion context keeps for the operation.
abbrev pub context_block : Option (ℕ × FileEvent) → List ℕ
context_block none = []
context_block (some (b, e)) = b ∷ []

abbrev pub ContextIsWellFormed : Option (ℕ × FileEvent) → Type 0
ContextIsWellFormed none = Unit {0}
ContextIsWellFormed (some (b, e)) = IsWellFormed e

module _ (others : List ℕ) (b : ℕ) (e : FileEvent) (w : IsWellFormed e) (now : ℕ) where
  packet : ℕ → Packet FileEvent
  packet a = record { block = a; event_block = b; event = e }

  past :
      (f : FileManager)
      → IsValid (b ∷ others) f
      → Holds f.pool (blocks f.queued_file_events ++ b ∷ (block_of f.log_block ++ others))
  past f v = Holds-past b f.pool (blocks f.queued_file_events) (block_of f.log_block) others v.owned

  -- The block of an event that is not queued is freed.
  queued :
      (answer : Option ℕ) (f : FileManager)
      → IsValid (b ∷ others) f
      → IsValid others (settle b (queue_file_event now answer b e f))
  unfolding queue_file_event settle packet
  queued none f v = record {
    owned = free_beside-Holds b f.queued_file_events f.pool _ (past f v);
    well_formed = v.well_formed;
    log_bounded = v.log_bounded;
  }
  queued (some a) f v = elim (Bool-cases (is_connected now f.last_contact_time)) [
    | inl on ↦ simp on (record {
      owned = queue_packet-Holds f.queued_file_events (packet a) f.pool _ (past f v);
      well_formed = AllWellFormed-snoc f.queued_file_events (packet a) v.well_formed w;
      log_bounded = v.log_bounded;
    })
    | inr off ↦ simp off (record {
      owned = free_beside-Holds b f.queued_file_events f.pool _ (past f v);
      well_formed = v.well_formed;
      log_bounded = v.log_bounded;
    })
  ]

-- In a driver that is valid besides the block of a well-formed event under way, the completion of
-- the operation leaves it valid without: the block goes to the queue or is freed, whether the
-- operation is draining or not.
pub post_file_operation-IsValid :
    (others : List ℕ) (context : Option (ℕ × FileEvent)) (draining : Bool)
    (status information now : ℕ) (answer : Option ℕ) (f : FileManager)
    → ContextIsWellFormed context
    → IsValid (context_block context ++ others) f
    → IsValid others (post_file_operation context draining status information now answer f)
unfolding post_file_operation
post_file_operation-IsValid others none draining status information now answer f w v = v
post_file_operation-IsValid others (some (b, e)) true status information now answer f w v = record {
  owned = free_beside-Holds b f.queued_file_events f.pool _ (past others b e w now f v);
  well_formed = v.well_formed;
  log_bounded = v.log_bounded;
}
post_file_operation-IsValid others (some (b, e)) false status information now answer f w v =
    queued others b (record e { status = status; information = information }) w now answer f v

pub connect-IsValid :
    (others : List ℕ) (f : FileManager) → IsValid others f → IsValid others (connect f)
unfolding connect
connect-IsValid others f v = record {
  owned = v.owned;
  well_formed = v.well_formed;
  log_bounded = v.log_bounded;
}

pub disconnect-IsValid :
    (others : List ℕ) (f : FileManager) → IsValid others f → IsValid others (disconnect f)
unfolding disconnect
disconnect-IsValid others f v =
    let w = drop_log_directory-IsValid others _ (free_queued_events-IsValid others f v) in
    record { owned = w.owned; well_formed = w.well_formed; log_bounded = w.log_bounded }

pub filter_unload-Holds :
    (others : List ℕ) (f : FileManager) → IsValid others f → Holds (filter_unload f).pool others
unfolding filter_unload drop_log_directory free_queued_events
filter_unload-Holds others f v =
    (free_queued_events-IsValid others _ (drop_log_directory-IsValid others f v)).owned

pub driver_entry-IsValid :
    (others : List ℕ) (now : ℕ) (f : FileManager)
    → Holds f.pool others
    → IsValid others (driver_entry 0 0 0 0 now f).1
unfolding driver_entry
driver_entry-IsValid others now f h = record {
  owned = h;
  well_formed = tt;
  log_bounded = omega arith;
}
