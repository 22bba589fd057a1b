-- ===== src/EventQueue/Clearing.antt =====
-- What clear_queue of the event queue frees.
use hsn_capture_hpc_ng.Base.{ℕ, ◌≡◌, List, [], ◌∷◌, ◌++◌, Option, none, some, arith, count}
use hsn_capture_hpc_ng.Kernel.Pool.{
  Pool, Holds, free, free-Holds, allocated, allocated-Holds, Holds-reorder, Holds-to_front,
  Holds-from_front, block_of, free_if_allocated, free_if_null, free_if_block,
}
use hsn_capture_hpc_ng.EventQueue.{Packet, clear_queue}

-- The blocks that a queue keeps allocated, two for each packet.
abbrev pub blocks : {E : Type 0} → List (Packet E) → List ℕ
blocks [] = []
blocks (p ∷ q) = p.event_block ∷ p.block ∷ blocks q

-- The events of a queue, oldest first.
abbrev pub events : {E : Type 0} → List (Packet E) → List E
events [] = []
events (p ∷ q) = p.event ∷ events q

-- Taking a packet off the queue frees its two blocks.
pub free_packet-Holds :
    {E : Type 0} (p : Packet E) (m : Pool) (bs : List ℕ)
    → Holds m (p.event_block ∷ p.block ∷ bs)
    → Holds (free p.block (free p.event_block m)) bs
free_packet-Holds p m bs h =
    free-Holds p.block (free p.event_block m) bs (free-Holds p.event_block m (p.block ∷ bs) h)

-- The blocks of the queue are freed, each once, and no other.
pub clear_queue-Holds :
    {E : Type 0} (q : List (Packet E)) (m : Pool) (others : List ℕ)
    → Holds m (blocks q ++ others)
    → Holds (clear_queue q m) others
unfolding clear_queue
clear_queue-Holds [] m others h = h
clear_queue-Holds (p ∷ q) m others h =
    clear_queue-Holds q (free p.block (free p.event_block m)) others
      (free_packet-Holds p m (blocks q ++ others) h)

count-blocks-snoc :
    {E : Type 0} (a : ℕ) (q : List (Packet E)) (p : Packet E) (others : List ℕ)
    → count a (p.block ∷ (blocks q ++ p.event_block ∷ others))
      ≡ count a (blocks (q ++ p ∷ []) ++ others)
count-blocks-snoc a [] p others = omega arith
count-blocks-snoc a (x ∷ q) p others = omega (arith, count-blocks-snoc a q p others)

-- A packet is allocated and goes to the end of the queue, which takes the event's block over.
pub queue_packet-Holds :
    {E : Type 0} (q : List (Packet E)) (p : Packet E) (m : Pool) (others : List ℕ)
    → Holds m (blocks q ++ p.event_block ∷ others)
    → Holds (allocated (some p.block) m) (blocks (q ++ p ∷ []) ++ others)
queue_packet-Holds q p m others h =
    Holds-reorder (allocated (some p.block) m) (p.block ∷ (blocks q ++ p.event_block ∷ others))
      (blocks (q ++ p ∷ []) ++ others) (λ a. count-blocks-snoc a q p others)
      (allocated-Holds p.block m (blocks q ++ p.event_block ∷ others) h)

-- A block that a caller keeps besides the queue and the rest can be freed.
pub free_beside-Holds :
    {E : Type 0} (b : ℕ) (q : List (Packet E)) (m : Pool) (others : List ℕ)
    → Holds m (blocks q ++ b ∷ others)
    → Holds (free b m) (blocks q ++ others)
free_beside-Holds b q m others h =
    free-Holds b m (blocks q ++ others) (Holds-to_front b m (blocks q) others h)

-- And one can be allocated.
pub allocate_beside-Holds :
    {E : Type 0} (b : ℕ) (q : List (Packet E)) (m : Pool) (others : List ℕ)
    → Holds m (blocks q ++ others)
    → Holds (allocated (some b) m) (blocks q ++ b ∷ others)
allocate_beside-Holds b q m others h =
    Holds-from_front b (allocated (some b) m) (blocks q) others
      (allocated-Holds b m (blocks q ++ others) h)

pub free_if_beside-Holds :
    {E : Type 0} (o : Option ℕ) (q : List (Packet E)) (m : Pool) (others : List ℕ)
    → Holds m (blocks q ++ (block_of o ++ others))
    → Holds (free_if_allocated o m) (blocks q ++ others)
free_if_beside-Holds none q m others h = rw free_if_null h
free_if_beside-Holds (some b) q m others h = rw free_if_block (free_beside-Holds b q m others h)
