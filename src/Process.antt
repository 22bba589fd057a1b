-- ===== src/Process.antt =====
-- CaptureProcessMonitor.c: the state of the driver, its loading and unloading, the capture of
-- process events and the request of the userspace program.
pub mod Invariant
pub mod Request
mod Tests
use hsn_capture_hpc_ng.Base.{
  ℕ, ◌+◌, ◌-◌, ◌/◌, ◌%◌, List, [], ◌∷◌, ◌++◌, Option, none, some, Bool, true, false, ltb, leb, ◌==◌,
  not, if◌then◌else◌, take,
}
use hsn_capture_hpc_ng.Kernel.Pool.{Pool, allocated, free, free_if_allocated}
use hsn_capture_hpc_ng.Kernel.Status.{
  nt_success, status_success, status_unsuccessful, status_info_length_mismatch,
  status_buffer_overflow, status_insufficient_resources,
}

-- PROCESS_EVENT; the path is what was copied into processPath, `none` where nothing was.
-- processPathLength is written nowhere.
pub record ProcessEvent : Type 0 where
  pub time : ℕ
  pub parent_process_id : ℕ
  pub process_id : ℕ
  pub created : Bool
  pub path : Option (List ℕ)

-- Eight shorts, two handles, a BOOLEAN with padding, a UINT, 1024 characters.
abbrev pub sizeof_process_event : ℕ
sizeof_process_event = 2080

-- PROCESS_EVENT_PACKET: the event lies in the packet's own block.
pub record EventPacket : Type 0 where
  pub block : ℕ
  pub event : ProcessEvent

-- CAPTURE_PROCESS_MANAGER, what the driver has registered, the handles that it holds open, how
-- often its event was set and cleared again, and the pool.
pub record ProcessManager : Type 0 where
  pub device : Bool
  pub link : Bool
  pub callback : Bool
  pub ready : Bool
  pub current_process_event : Option ℕ
  pub queued_process_events : List EventPacket
  pub queued_count : ℕ
  pub open_handles : ℕ
  pub pulses : ℕ
  pub pool : Pool

-- DriverEntry. The arguments are the answers of IoCreateDevice, IoCreateSymbolicLink and
-- PsSetCreateProcessNotifyRoutine.
pub driver_entry : ℕ → ℕ → ℕ → ProcessManager → ℕ × ProcessManager
driver_entry created linked notified p =
    let p1 : ProcessManager = record p { device = true } in
    let p2 : ProcessManager = record p1 {
      link = true;
      queued_process_events = [];
      queued_count = 0;
      current_process_event = none;
    } in
    if nt_success created
    then (if nt_success linked
        then (if nt_success notified
            then (status_success, record p2 { callback = true; ready = true })
            else (notified, p2))
        else (linked, record p1 { device = false }))
    else (created, p)

-- What the kernel answers to GetProcessImageName: the lookup of the process and the opening of a
-- handle to it, the query of the name's size, the allocation, and the query of the name.
pub record ImageQuery : Type 0 where
  pub lookup_status : ℕ
  pub open_status : ℕ
  pub size_status : ℕ
  pub returned_length : ℕ
  pub buffer : Option ℕ
  pub name_status : ℕ
  pub name : List ℕ

-- The status, the MaximumLength, and the characters copied, `none` where none were.
pub record ImageName : Type 0 where
  pub status : ℕ
  pub maximum_length : ℕ
  pub name : Option (List ℕ)

-- bufferLength, a ULONG: the size of a UNICODE_STRING is 8.
abbrev pub buffer_length : ImageQuery → ℕ
buffer_length q = (q.returned_length + 0x100000000 - 8) % 0x100000000

-- How many handles GetProcessImageName opens: it closes none.
pub handles_opened : ImageQuery → ℕ
handles_opened q =
    if nt_success q.lookup_status then (if nt_success q.open_status then 1 else 0) else 0

pub get_process_image_name : ImageQuery → ℕ → ImageName
get_process_image_name q maximum =
    let copied : ImageName = record {
      status = q.name_status;
      maximum_length = maximum;
      name = if nt_success q.name_status then some (take (maximum / 2) q.name) else none;
    } in
    let refused : ℕ → ImageName =
      λ s. record { status = s; maximum_length = maximum; name = none } in
    if not (q.size_status == status_info_length_mismatch)
    then refused q.size_status
    else (if ltb maximum (buffer_length q)
        then record {
          status = status_buffer_overflow;
          maximum_length = buffer_length q % 0x10000;
          name = none;
        }
        else elim q.buffer [ none ↦ refused status_insufficient_resources | some _ ↦ copied ])

-- The buffer of the second query is freed before the function returns: only a handle is left.
-- RtlStringCbCopyUnicodeString into 1024 bytes leaves room for 511 characters.
path_of : ImageQuery → ImageName → Option (List ℕ)
path_of q first =
    let second : ImageName = get_process_image_name q first.maximum_length in
    if nt_success second.status
    then elim second.name [ none ↦ none | some cs ↦ some (take 511 cs) ]
    else none

-- What the kernel answers while a process event is captured.
pub record CallbackAnswers : Type 0 where
  pub time : ℕ
  pub packet_block : Option ℕ
  pub first : ImageQuery
  pub path_block : Option ℕ
  pub second : ImageQuery

-- The path of the process, by two queries: the first asks for the size.
pub process_path : CallbackAnswers → Option (List ℕ)
unfolding path_of
process_path a =
    let first : ImageName = get_process_image_name a.first 0 in
    if first.status == status_buffer_overflow
    then elim a.path_block [ none ↦ none | some _ ↦ path_of a.second first ]
    else none

-- The handles that the one or two queries leave open.
pub handles_left : CallbackAnswers → ℕ
unfolding handles_opened
handles_left a =
    let first : ImageName = get_process_image_name a.first 0 in
    handles_opened a.first
    + (if first.status == status_buffer_overflow
        then elim a.path_block [ none ↦ 0 | some _ ↦ handles_opened a.second ]
        else 0)

-- Appends the packet, counts it (a ULONG), and sets and clears the event.
enqueue : EventPacket → ProcessManager → ProcessManager
enqueue e p = record p {
  queued_process_events = p.queued_process_events ++ e ∷ [];
  queued_count = (p.queued_count + 1) % 0x100000000;
  pulses = p.pulses + 1;
  pool = allocated (some e.block) p.pool;
}

-- ProcessCallback: parent, process, whether it is created.
pub process_callback : ℕ → ℕ → Bool → CallbackAnswers → ProcessManager → ProcessManager
unfolding enqueue
process_callback parent process create a p = elim a.packet_block [
  | none ↦ p
  | some b ↦
      let e : ProcessEvent = record {
        time = a.time;
        parent_process_id = parent;
        process_id = process;
        created = create;
        path = process_path a;
      } in
      enqueue (record { block = b; event = e })
        (record p { open_handles = p.open_handles + handles_left a })
]

-- The control codes that KDispatchIoctl tells apart.
pub data ControlCode : Type 0 where
  get_procinfo other_code : ControlCode

-- The status and the Information of the request, and the event copied to the buffer, if any.
pub record Reply : Type 0 where
  pub status : ℕ
  pub information : ℕ
  pub event : Option ProcessEvent

-- The body of the `try`: the head of the queue, if there is one, is copied and freed; the event is
-- set again where others are left.
take_event : List EventPacket → ProcessManager → Reply × ProcessManager
take_event [] p = (record { status = status_success; information = 0; event = none }, p)
take_event (e ∷ q) p =
    let count : ℕ = (p.queued_count + 0x100000000 - 1) % 0x100000000 in
    (
      record { status = status_success; information = sizeof_process_event; event = some e.event },
      record p {
        queued_process_events = q;
        queued_count = count;
        pulses = if count == 0 then p.pulses else p.pulses + 1;
        pool = free e.block p.pool;
      },
    )

-- Only STATUS_SUCCESS is answered with a length.
complete : Reply → Reply
complete r = record r { information = if r.status == status_success then r.information else 0 }

refuse : ℕ → Reply
refuse s = record { status = s; information = 0; event = none }

-- KDispatchIoctl. The arguments are the code, the code of the exception that ProbeForWrite raises,
-- if it does, and OutputBufferLength.
pub k_dispatch_ioctl : ControlCode → Option ℕ → ℕ → ProcessManager → Reply × ProcessManager
unfolding take_event complete refuse
k_dispatch_ioctl other_code probe len p = (complete (refuse status_unsuccessful), p)
k_dispatch_ioctl get_procinfo (some code) len p =
    if leb sizeof_process_event len
    then (complete (refuse code), p)
    else (complete (refuse status_unsuccessful), p)
k_dispatch_ioctl get_procinfo none len p =
    let (r, p') = take_event p.queued_process_events p in
    if leb sizeof_process_event len
    then (complete r, p')
    else (complete (refuse status_unsuccessful), p)

-- Where the driver was ready, its callback is taken back.
stop_capture : Bool → ProcessManager → ProcessManager
stop_capture true p = record p { callback = false; ready = false }
stop_capture false p = p

pub unload_driver : ProcessManager → ProcessManager
unfolding stop_capture
unload_driver p =
    let s : ProcessManager = stop_capture p.ready p in
    record s {
      pool = free_if_allocated s.current_process_event s.pool;
      current_process_event = none;
      link = false;
      device = false;
    }
