-- ===== src/File.antt =====
-- CaptureFileMonitor.c: the state of the filter driver, its loading and unloading, the queue of
-- file events and the messages of the userspace program.
pub mod Invariant
pub mod Message
pub mod Lifecycle
pub mod System
pub mod Directories
pub mod DosName
pub mod Copy
pub mod Deletion
pub mod PreOperation
mod Tests
use hsn_capture_hpc_ng.Base.{
  ℕ, ◌+◌, ◌%◌, List, [], ◌∷◌, ◌++◌, Option, none, some, Bool, true, false, ltb, leb, ◌==◌, ◌&&◌,
  not, if◌then◌else◌,
}
use hsn_capture_hpc_ng.Kernel.Pool.{Pool, allocated, free, free_if_allocated}
use hsn_capture_hpc_ng.Kernel.Clock.{is_timed_out, is_connected}
use hsn_capture_hpc_ng.Kernel.Status.{
  nt_success, status_success, status_invalid_parameter, status_flt_do_not_attach,
}
use hsn_capture_hpc_ng.Kernel.Text.{UnicodeString, unicode_string_cat}
use hsn_capture_hpc_ng.EventQueue.{Packet, Copied, Delivery, clear_queue, fill_buffer}

-- FILE_EVENT; filePath is in characters, its terminator included.
pub record FileEvent : Type 0 where
  pub major_type : ℕ
  pub minor_type : ℕ
  pub status : ℕ
  pub information : ℕ
  pub flags : ℕ
  pub time : ℕ
  pub process_id : ℕ
  pub path_length : ℕ
  pub path : List ℕ

-- Two chars with padding, a status, two ULONGs, eight shorts, a handle and a UINT.
abbrev pub sizeof_file_event : ℕ
sizeof_file_event = 40

-- fileEventSize, a UINT.
abbrev pub file_event_size : FileEvent → ℕ
file_event_size e = (sizeof_file_event + e.path_length) % 0x100000000

-- CAPTURE_FILE_MANAGER and the pool. The log directory is a block and its string: Buffer is NULL
-- where there is no block.
pub record FileManager : Type 0 where
  pub filter : Bool
  pub server_port : Bool
  pub client_port : Bool
  pub timer : Bool
  pub ready : Bool
  pub collect_deleted_files : Bool
  pub log_block : Option ℕ
  pub log_directory : UnicodeString
  pub queued_file_events : List (Packet FileEvent)
  pub last_contact_time : ℕ
  pub pool : Pool

pub update_last_contact_time : ℕ → FileManager → FileManager
update_last_contact_time now f = record f { last_contact_time = now }

-- DriverEntry. The arguments are the answers of FltRegisterFilter,
-- FltBuildDefaultSecurityDescriptor, FltCreateCommunicationPort, FltStartFiltering and the clock.
pub driver_entry : ℕ → ℕ → ℕ → ℕ → ℕ → FileManager → ℕ × FileManager
unfolding update_last_contact_time
driver_entry registered described opened started now f =
    let f0 : FileManager = record f {
      ready = false;
      collect_deleted_files = false;
      queued_file_events = [];
    } in
    let f1 : FileManager = record f0 { filter = true } in
    let f2 : FileManager = record f1 { server_port = true } in
    let f3 : FileManager = record (update_last_contact_time now f2) {
      timer = true;
      ready = true;
      log_block = none;
      log_directory = record f.log_directory { characters = [] };
    } in
    if nt_success registered
    then (if nt_success described
        then (if nt_success opened
            then (if nt_success started
                then (status_success, f3)
                else (started, record f2 { server_port = false; filter = false }))
            else (opened, record f1 { server_port = false; filter = false }))
        else (described, f1))
    else (registered, f0)

pub free_queued_events : FileManager → FileManager
free_queued_events f = record f {
  queued_file_events = [];
  pool = clear_queue f.queued_file_events f.pool;
}

pub connection_checker : ℕ → FileManager → FileManager
unfolding free_queued_events
connection_checker now f = if is_timed_out now f.last_contact_time then free_queued_events f else f

-- QueueFileEvent, for an event in the block given; the packet's allocation is the second argument.
pub queue_file_event : ℕ → Option ℕ → ℕ → FileEvent → FileManager → Bool × FileManager
queue_file_event now none b e f = (false, f)
queue_file_event now (some a) b e f =
    let p : Packet FileEvent = record { block = a; event_block = b; event = e } in
    if is_connected now f.last_contact_time
    then (
      true,
      record f {
        queued_file_events = f.queued_file_events ++ p ∷ [];
        pool = allocated (some a) f.pool;
      },
    )
    else (false, f)

-- Frees the event if it was not queued.
settle : ℕ → Bool × FileManager → FileManager
settle b (true, f) = f
settle b (false, f) = record f { pool = free b f.pool }

-- PostFileOperationCallback. The completion context is an event and its block, or NULL; then
-- whether the operation is draining, its status and information, the clock and the allocation.
pub post_file_operation :
    Option (ℕ × FileEvent) → Bool → ℕ → ℕ → ℕ → Option ℕ → FileManager → FileManager
unfolding settle
post_file_operation none draining status information now answer f = f
post_file_operation (some (b, e)) true status information now answer f = record f {
  pool = free b f.pool;
}
post_file_operation (some (b, e)) false status information now answer f =
    let e' : FileEvent = record e { status = status; information = information } in
    settle b (queue_file_event now answer b e' f)

-- Frees the log directory, where there is one, and stops collecting.
pub drop_log_directory : FileManager → FileManager
drop_log_directory f = record f {
  pool = free_if_allocated f.log_block f.pool;
  log_block = none;
  collect_deleted_files = false;
}

-- FilterUnload.
pub filter_unload : FileManager → FileManager
unfolding drop_log_directory free_queued_events
filter_unload f =
    let closed : FileManager = record f { server_port = false } in
    let stopped : FileManager = record closed {
      filter = f.filter && not f.ready;
      timer = f.timer && not f.ready;
    } in
    free_queued_events (drop_log_directory stopped)

-- ConnectCallback and DisconnectCallback.
pub connect : FileManager → FileManager
connect f = record f { client_port = true }

pub disconnect : FileManager → FileManager
unfolding drop_log_directory free_queued_events
disconnect f = record (drop_log_directory (free_queued_events f)) { client_port = false }

-- SetupCallback: whether the volume is one of a network file system.
pub setup_callback : Bool → ℕ
setup_callback network = if network then status_flt_do_not_attach else status_success

-- FILEMONITOR_COMMAND, read from the message.
pub data Command : Type 0 where
  get_file_events setup_monitor : Command
  other_command : ℕ → Command

-- FILEMONITOR_SETUP: the size is nLogDirectorySize as a 32-bit pattern.
pub record Setup : Type 0 where
  pub collect : Bool
  pub log_directory_size : ℕ
  pub log_directory : List ℕ

-- BOOLEAN with padding, INT, 1024 characters.
abbrev pub sizeof_setup : ℕ
sizeof_setup = 2056

-- The characters of L"\\??\\", the prefix of a path in kernel space, and the MaximumLength that
-- RtlInitUnicodeString gives it.
abbrev pub kernel_prefix : List ℕ
kernel_prefix = 0x5C ∷ 0x3F ∷ 0x3F ∷ 0x5C ∷ []

abbrev pub kernel_prefix_maximum : ℕ
kernel_prefix_maximum = 10

-- The new log directory: its size is a USHORT.
pub log_string : Setup → UnicodeString
log_string s =
    let size : ℕ = (kernel_prefix_maximum + s.log_directory_size + 2) % 0x10000 in
    let empty : UnicodeString = record { characters = []; maximum_length = size } in
    unicode_string_cat (unicode_string_cat empty kernel_prefix) s.log_directory

-- Collecting is set up in a new block. Where that is not to be had, the old log directory is gone
-- all the same, and whether files are collected is left as it was.
collect_in : Setup → Option ℕ → FileManager → FileManager
collect_in s none f = record f { pool = free_if_allocated f.log_block f.pool; log_block = none }
collect_in s (some b) f = record f {
  pool = allocated (some b) (free_if_allocated f.log_block f.pool);
  log_block = some b;
  log_directory = log_string s;
  collect_deleted_files = s.collect;
}

-- The body of the case SetupMonitor.
pub set_up : Setup → Option ℕ → FileManager → FileManager
unfolding collect_in drop_log_directory
set_up s answer f = if s.collect then collect_in s answer f else drop_log_directory f

-- What MessageCallback is handed: no input, or its size, the code of the exception that reading it
-- raises, if it does, and the command.
pub data Input : Type 0 where
  null_input : Input
  message : ℕ → Option ℕ → Command → Input

-- The status, *ReturnOutputBufferLength where it is written, and what was copied.
pub record Reply : Type 0 where
  pub status : ℕ
  pub returned : Option ℕ
  pub output : List (Copied FileEvent)

abbrev bare : ℕ → Reply
bare status = record { status = status; returned = none; output = [] }

-- The switch over the command. The arguments are the output buffer's size, its contents as a
-- setup, the allocation of the log directory and the clock. The case SetupMonitor runs on into the
-- default case.
pub dispatch_command : Command → ℕ → Setup → Option ℕ → ℕ → FileManager → Reply × FileManager
unfolding update_last_contact_time set_up
dispatch_command get_file_events len s answer now f =
    let f' : FileManager = update_last_contact_time now f in
    let d : Delivery FileEvent =
      fill_buffer file_event_size sizeof_file_event len 0 f'.queued_file_events f'.pool in
    (
      record { status = status_success; returned = some d.used; output = d.output },
      record f' { queued_file_events = d.queue; pool = d.pool },
    )
dispatch_command setup_monitor len s answer now f =
    (bare status_invalid_parameter, if len == sizeof_setup then set_up s answer f else f)
dispatch_command (other_command c) len s answer now f = (bare status_invalid_parameter, f)

-- MessageCallback.
pub message_callback : Input → ℕ → Setup → Option ℕ → ℕ → FileManager → Reply × FileManager
unfolding dispatch_command
message_callback null_input len s answer now f = (bare status_invalid_parameter, f)
message_callback (message size (some code) c) len s answer now f =
    (bare (if leb 4 size then code else status_invalid_parameter), f)
message_callback (message size none c) len s answer now f =
    if leb 4 size then dispatch_command c len s answer now f else (bare status_invalid_parameter, f)
