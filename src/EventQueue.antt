-- ===== src/EventQueue.antt =====
-- The queue of captured events that each driver keeps, a LIST_ENTRY list of packets, and the two
-- loops over it that CaptureRegistryMonitor.c and CaptureFileMonitor.c both write out: one throws
-- the events away, and one copies them into the buffer of the userspace program.
pub mod Clearing
pub mod Filling
pub mod Reading
pub mod Sending
mod Tests
use hsn_capture_hpc_ng.Base.{
  ℕ, zero, suc, Option, none, some, ◌+◌, ◌-◌, ◌%◌, List, [], ◌∷◌, Bool, ◌&&◌, ltb, leb,
  if◌then◌else◌,
}
use hsn_capture_hpc_ng.Kernel.Pool.{Pool, free}

-- A packet: its own block, the block that pRegistryEvent or pFileEvent points to, and what that
-- block holds.
pub record Packet (E : Type 0) : Type 0 where
  pub block : ℕ
  pub event_block : ℕ
  pub event : E

-- One RtlCopyMemory into the output buffer.
pub record Copied (E : Type 0) : Type 0 where
  pub offset : ℕ
  pub bytes : ℕ
  pub event : E

-- What is left when the buffer is filled.
pub record Delivery (E : Type 0) : Type 0 where
  pub used : ℕ
  pub queue : List (Packet E)
  pub pool : Pool
  pub output : List (Copied E)

module _ {E : Type 0} where
  -- while(!IsListEmpty) remove the head, free its event, free the packet.
  pub clear_queue : List (Packet E) → Pool → Pool
  clear_queue [] m = m
  clear_queue (p ∷ q) m = clear_queue q (free p.block (free p.event_block m))

  -- The loop of the request for events, from the queue's head on. `header` is the size of the fixed
  -- part of an event and `size` that of an event; `used` is bufferSpaceUsed, a UINT.
  pub fill_buffer : (E → ℕ) → ℕ → ℕ → ℕ → List (Packet E) → Pool → Delivery E
  fill_buffer size header space used [] m = record {
    used = used;
    queue = [];
    pool = m;
    output = [];
  }
  fill_buffer size header space used (p ∷ q) m =
      let stop : Delivery E = record { used = used; queue = p ∷ q; pool = m; output = [] } in
      let need : ℕ = size p.event in
      let next : Delivery E =
        fill_buffer size header space ((used + need) % 0x100000000) q
          (free p.block (free p.event_block m)) in
      let copied : Copied E = record { offset = used; bytes = need; event = p.event } in
      if ltb used space && leb header (space - used)
      then (if leb need (space - used) then record next { output = copied ∷ next.output } else stop)
      else stop

  -- The same loop where an RtlCopyMemory raises an exception, the one behind the first `n`: its packet,
  -- which is off the queue and is not freed, with the queue and the pool that are left. `none` where the
  -- loop ends before.
  unfoldable pub copy_raises :
      (E → ℕ)
      → ℕ
      → ℕ
      → ℕ
      → ℕ
      → List (Packet E)
      → Pool
      → Option (Packet E × (List (Packet E) × Pool))
  copy_raises size header space n used [] m = none
  copy_raises size header space zero used (p ∷ q) m =
      if ltb used space && leb header (space - used) && leb (size p.event) (space - used)
      then some (p, (q, m))
      else none
  copy_raises size header space (suc n) used (p ∷ q) m =
      let later : Option (Packet E × (List (Packet E) × Pool)) =
        copy_raises size header space n ((used + size p.event) % 0x100000000) q
          (free p.block (free p.event_block m)) in
      if ltb used space && leb header (space - used) && leb (size p.event) (space - used)
      then later
      else none
