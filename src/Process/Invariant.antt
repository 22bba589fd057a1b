-- ===== src/Process/Invariant.antt =====
-- What holds of the process driver between its entry points, and what it never gives back.
use hsn_capture_hpc_ng.Base.{
  ℕ, ◌+◌, ◌%◌, ◌≤◌, ◌<◌, ◌≡◌, refl, ap, subst, inl, inr, List, [], ◌∷◌, ◌++◌, Option, none, some,
  Bool, true, false, arith, leb, length, length-append, count, Bool-cases, Option-cases,
}
use hsn_capture_hpc_ng.Kernel.Pool.{
  Holds, Holds-reorder, allocated, allocated-Holds, free-Holds, free_if_allocated, free_if_null,
}
use hsn_capture_hpc_ng.Kernel.Status.{nt_success}
use hsn_capture_hpc_ng.Process.{
  EventPacket, ProcessManager, ImageQuery, CallbackAnswers, handles_opened, handles_left, enqueue,
  process_callback, ControlCode, get_procinfo, other_code, take_event, k_dispatch_ioctl,
  stop_capture, unload_driver, sizeof_process_event,
}

-- The blocks that the queue keeps, one for each packet.
abbrev pub packet_blocks : List EventPacket → List ℕ
packet_blocks [] = []
packet_blocks (e ∷ q) = e.block ∷ packet_blocks q

-- The pool holds the packets and, besides, the others; nQueuedProcessEvents is the length of the
-- queue, up to the wrap of a ULONG; pCurrentProcessEvent is never used.
pub record IsValid (others : List ℕ) (p : ProcessManager) : Type 0 where
  pub owned : Holds p.pool (packet_blocks p.queued_process_events ++ others)
  pub counted : p.queued_count ≡ length p.queued_process_events % 0x100000000
  pub unused : p.current_process_event ≡ none

count-packets-snoc :
    (a : ℕ) (q : List EventPacket) (e : EventPacket) (others : List ℕ)
    → count a (e.block ∷ (packet_blocks q ++ others))
      ≡ count a (packet_blocks (q ++ e ∷ []) ++ others)
count-packets-snoc a [] e others = refl
count-packets-snoc a (x ∷ q) e others = omega (arith, count-packets-snoc a q e others)

enqueue-IsValid :
    (others : List ℕ) (e : EventPacket) (p : ProcessManager)
    → IsValid others p
    → IsValid others (enqueue e p)
unfolding enqueue
enqueue-IsValid others e p v = record {
  owned =
      Holds-reorder (allocated (some e.block) p.pool)
        (e.block ∷ (packet_blocks p.queued_process_events ++ others)) _
        (λ a. count-packets-snoc a p.queued_process_events e others)
        (allocated-Holds e.block p.pool (packet_blocks p.queued_process_events ++ others) v.owned);
  counted = omega (arith, v.counted, length-append p.queued_process_events (e ∷ []));
  unused = v.unused;
}

-- Capturing a process event keeps a valid driver valid: the packet's block is the queue's, and the
-- count of the queue is kept.
process_callback-IsValid :
    (others : List ℕ) (parent process : ℕ) (create : Bool) (a : CallbackAnswers)
    (p : ProcessManager)
    → IsValid others p
    → IsValid others (process_callback parent process create a p)
unfolding process_callback
process_callback-IsValid others parent process create a p v = elim (Option-cases a.packet_block) [
  | inl n ↦ rw (n, process_callback) v
  | inr (b, e) ↦
      rw (e, process_callback)
        (enqueue-IsValid others _ _
          (record { owned = v.owned; counted = v.counted; unused = v.unused }))
]

take_event-IsValid :
    (others : List ℕ) (q : List EventPacket) (p : ProcessManager)
    → p.queued_process_events ≡ q
    → IsValid others p
    → IsValid others (take_event q p).1
unfolding take_event
take_event-IsValid others [] p e v = v
take_event-IsValid others (x ∷ q) p e v = record {
  owned =
      free-Holds x.block p.pool (packet_blocks q ++ others)
        (subst (λ (l : List EventPacket). Holds p.pool (packet_blocks l ++ others)) e v.owned);
  counted = omega (arith, v.counted, ap length e);
  unused = v.unused;
}

-- A request keeps a valid driver valid: the packet that is taken is freed, and the count of the queue
-- is kept.
k_dispatch_ioctl-IsValid :
    (others : List ℕ) (code : ControlCode) (probe : Option ℕ) (len : ℕ) (p : ProcessManager)
    → IsValid others p
    → IsValid others (k_dispatch_ioctl code probe len p).1
unfolding k_dispatch_ioctl
k_dispatch_ioctl-IsValid others other_code probe len p v = v
k_dispatch_ioctl-IsValid others get_procinfo (some code) len p v =
    elim (Bool-cases (leb sizeof_process_event len)) [ inl e ↦ rw e v | inr e ↦ rw e v ]
k_dispatch_ioctl-IsValid others get_procinfo none len p v =
    elim (Bool-cases (leb sizeof_process_event len)) [
      | inl e ↦ rw e (take_event-IsValid others p.queued_process_events p refl v)
      | inr e ↦ rw e v
    ]

stop_capture-Holds :
    (blocks : List ℕ) (ready : Bool) (p : ProcessManager)
    → p.current_process_event ≡ none
    → Holds p.pool blocks
    → Holds
        (free_if_allocated (stop_capture ready p).current_process_event (stop_capture ready p).pool)
        blocks
unfolding stop_capture
stop_capture-Holds blocks true p e h = rw (e, free_if_null) h
stop_capture-Holds blocks false p e h = rw (e, free_if_null) h

-- Unloading a valid driver frees nothing of the queue: every packet that waits stays allocated.
unload_driver_leaks :
    (others : List ℕ) (p : ProcessManager)
    → IsValid others p
    → Holds (unload_driver p).pool (packet_blocks p.queued_process_events ++ others)
unfolding unload_driver
unload_driver_leaks others p v = stop_capture-Holds _ p.ready p v.unused v.owned

-- A process event that the kernel reports, with what it answers.
pub record Report : Type 0 where
  pub parent : ℕ
  pub process : ℕ
  pub create : Bool
  pub answers : CallbackAnswers

pub callbacks : List Report → ProcessManager → ProcessManager
callbacks [] p = p
callbacks (c ∷ cs) p = callbacks cs (process_callback c.parent c.process c.create c.answers p)

-- Each packet was allocated, and each process was found and opened.
abbrev pub AllOpened : List Report → Type 0
AllOpened [] = Unit {0}
AllOpened (c ∷ cs) =
    ((b : ℕ) × (c.answers.packet_block ≡ some b))
    × (nt_success c.answers.first.lookup_status ≡ true)
    × (nt_success c.answers.first.open_status ≡ true)
    × AllOpened cs

handles_opened_one :
    (q : ImageQuery)
    → nt_success q.lookup_status ≡ true
    → nt_success q.open_status ≡ true
    → handles_opened q ≡ 1
unfolding handles_opened
handles_opened_one q l o = simp (l, o) refl

process_callback_opens :
    (parent process : ℕ) (create : Bool) (a : CallbackAnswers) (p : ProcessManager) (b : ℕ)
    → a.packet_block ≡ some b
    → handles_opened a.first ≡ 1
    → p.open_handles < (process_callback parent process create a p).open_handles
unfolding process_callback handles_left enqueue
process_callback_opens parent process create a p b e one =
    rw (e, process_callback) (omega (arith, one))

callbacks_open :
    (cs : List Report) (p : ProcessManager)
    → AllOpened cs
    → p.open_handles + length cs ≤ (callbacks cs p).open_handles
unfolding callbacks
callbacks_open [] p h = omega arith
callbacks_open (c ∷ cs) p h = omega (
  arith,
  process_callback_opens c.parent c.process c.create c.answers p h.0.0 h.0.1
      (handles_opened_one c.answers.first h.1 h.2),
  callbacks_open cs (process_callback c.parent c.process c.create c.answers p) h.3,
)

stop_capture_keeps :
    (ready : Bool) (p : ProcessManager) → (stop_capture ready p).open_handles ≡ p.open_handles
unfolding stop_capture
stop_capture_keeps true p = refl
stop_capture_keeps false p = refl

-- Process events whose packet is allocated and whose process is found and opened cost a handle each,
-- at least, and these are not closed when the driver is unloaded either.
pub unload_driver_leaks_handles :
    (cs : List Report) (p : ProcessManager)
    → AllOpened cs
    → p.open_handles + length cs ≤ (unload_driver (callbacks cs p)).open_handles
unfolding unload_driver
unload_driver_leaks_handles cs p h =
    omega (arith, callbacks_open cs p h, stop_capture_keeps (callbacks cs p).ready (callbacks cs p))
