-- ===== src/EventQueue/Filling.antt =====
-- fill_buffer against an independent description: the longest prefix of the queue that fits.
use native.Mathlib.Decide.{dec_le}
use native.Mathlib.Nat.{mod-eq_of_lt}
use hsn_capture_hpc_ng.Base.{
  ℕ, ◌+◌, ◌-◌, ◌%◌, ◌≤◌, ◌<◌, ◌≡◌, refl, inl, inr, ap, List, [], ◌∷◌, ◌++◌, arith, leb,
  if◌then◌else◌, Bool-cases, subst, true, false, lt→ltb, le→leb, not-le→leb, ltb, ◌&&◌,
}
use hsn_capture_hpc_ng.Kernel.Pool.{Pool, Holds, free}
use hsn_capture_hpc_ng.EventQueue.{Packet, Copied, Delivery, fill_buffer}
use hsn_capture_hpc_ng.EventQueue.Clearing.{blocks, events, free_packet-Holds}

sub_sub : (a b c : ℕ) → a - b - c ≡ a - (b + c)
sub_sub a b c = omega arith

module _ {E : Type 0} (size : E → ℕ) where
  abbrev pub total : List E → ℕ
  total [] = 0
  total (e ∷ es) = size e + total es

  -- An event copied whole to an offset.
  abbrev pub placed : ℕ → E → Copied E
  placed o e = record { offset = o; bytes = size e; event = e }

  -- Events side by side from an offset on.
  abbrev pub layout : ℕ → List E → List (Copied E)
  layout o [] = []
  layout o (e ∷ es) = placed o e ∷ layout (o + size e) es

  -- The events that fit into the room, taken in order until one does not fit; and the others.
  abbrev pub fitting : ℕ → List E → List E
  fitting room [] = []
  fitting room (e ∷ es) = if leb (size e) room then e ∷ fitting (room - size e) es else []

  abbrev pub waiting : ℕ → List E → List E
  waiting room [] = []
  waiting room (e ∷ es) = if leb (size e) room then waiting (room - size e) es else e ∷ es

  pub fitting-waiting : (room : ℕ) (es : List E) → fitting room es ++ waiting room es ≡ es
  fitting-waiting room [] = refl
  fitting-waiting room (e ∷ es) = ground (arith, fitting-waiting (room - size e) es)

  pub total-fitting-le : (room : ℕ) (es : List E) → total (fitting room es) ≤ room
  total-fitting-le room [] = omega arith
  total-fitting-le room (e ∷ es) = ground (arith, total-fitting-le (room - size e) es)

  -- The first of the list, if it has one, is larger than the room.
  abbrev pub TooLarge : ℕ → List E → Type 0
  TooLarge room [] = Unit {0}
  TooLarge room (e ∷ es) = room < size e

  -- The first event left waiting does not fit into what the others leave of the room.
  pub waiting-TooLarge :
      (room : ℕ) (es : List E) → TooLarge (room - total (fitting room es)) (waiting room es)
  waiting-TooLarge room [] = tt
  waiting-TooLarge room (e ∷ es) = elim (Bool-cases (leb (size e) room)) [
    | inl fits ↦
        rw (fits, if◌then◌else◌)
          (subst (λ (n : ℕ). TooLarge n (waiting (room - size e) es)) (sub_sub room (size e) _)
            (waiting-TooLarge (room - size e) es))
    | inr large ↦ rw (large, if◌then◌else◌) (ground arith)
  ]

  -- Every event is at least as large as the fixed part.
  abbrev pub AllAtLeast : ℕ → List E → Type 0
  AllAtLeast header [] = Unit {0}
  AllAtLeast header (e ∷ es) = (header ≤ size e) × AllAtLeast header es

  pub AllAtLeast-prefix :
      (header : ℕ) (xs ys : List E) → AllAtLeast header (xs ++ ys) → AllAtLeast header xs
  AllAtLeast-prefix header [] ys h = tt
  AllAtLeast-prefix header (x ∷ xs) ys h = (h.0, AllAtLeast-prefix header xs ys h.1)

  module _ (header space : ℕ) where
    abbrev filled : ℕ → List (Packet E) → Pool → Delivery E
    filled = fill_buffer size header space

    -- One round, where the head of the queue fits: it is copied, taken off and freed.
    fill_buffer_fits :
        (used : ℕ) (p : Packet E) (q : List (Packet E)) (m : Pool)
        → 0 < header
        → header ≤ size p.event
        → space < 0x100000000
        → used + size p.event ≤ space
        → filled used (p ∷ q) m ≡ (
            let rest : Delivery E =
              filled (used + size p.event) q (free p.block (free p.event_block m)) in
            let first : Copied E = record {
              offset = used;
              bytes = size p.event;
              event = p.event;
            } in
            record rest { output = first ∷ rest.output })
    unfolding fill_buffer
    fill_buffer_fits used p q m hp hh hs hf = rw (
      lt→ltb used space (omega arith),
      le→leb header (space - used) (omega arith),
      le→leb (size p.event) (space - used) (omega arith),
      mod-eq_of_lt {n = used + size p.event} {m = 0x100000000} (omega arith),
    )

    -- Where it does not, the loop ends and the queue is as it was.
    fill_buffer_stops :
        (used : ℕ) (p : Packet E) (q : List (Packet E)) (m : Pool)
        → used ≤ space
        → space < used + size p.event
        → filled used (p ∷ q) m ≡ record { used = used; queue = p ∷ q; pool = m; output = [] }
    unfolding fill_buffer
    fill_buffer_stops used p q m hu hl =
        elim (Bool-cases (ltb used space && leb header (space - used))) [
          | inl e ↦ rw (e, not-le→leb (size p.event) (space - used) (omega arith))
          | inr e ↦ rw e
        ]

    -- What fits is delivered, side by side and in order, and the rest is left.
    pub record Delivers (used : ℕ) (q : List (Packet E)) (d : Delivery E) : Type 0 where
      pub output_eq : d.output ≡ layout used (fitting (space - used) (events q))
      pub queue_eq : events d.queue ≡ waiting (space - used) (events q)
      pub used_eq : d.used ≡ used + total (fitting (space - used) (events q))

    Delivers-fits :
        (used : ℕ) (p : Packet E) (q : List (Packet E)) (d : Delivery E)
        → used + size p.event ≤ space
        → Delivers (used + size p.event) q d
        → (let first : Copied E = record { offset = used; bytes = size p.event; event = p.event } in
            Delivers used (p ∷ q) (record d { output = first ∷ d.output }))
    Delivers-fits used p q d h v =
        let fits : leb (size p.event) (space - used) ≡ true = le→leb _ _ (omega arith) in
        let same : space - used - size p.event ≡ space - (used + size p.event) =
          sub_sub space used (size p.event) in
        record {
          output_eq = rw (fits, same) (ap (◌∷◌ (placed used p.event)) v.output_eq);
          queue_eq = rw (fits, same) v.queue_eq;
          used_eq = rw (fits, same) (omega (arith, v.used_eq));
        }

    Delivers-stops :
        (used : ℕ) (p : Packet E) (q : List (Packet E)) (m : Pool)
        → used ≤ space
        → space < used + size p.event
        → Delivers used (p ∷ q) (record { used = used; queue = p ∷ q; pool = m; output = [] })
    Delivers-stops used p q m hu h =
        let large : leb (size p.event) (space - used) ≡ false = not-le→leb _ _ (omega arith) in
        record { output_eq = rw large; queue_eq = rw large; used_eq = rw large (omega arith) }

    -- From an offset within a buffer of less than 2^32 bytes, where every event is at least as large
    -- as the fixed part, the loop delivers the longest prefix that fits, side by side and in order,
    -- counts its bytes, and leaves the rest.
    pub fill_buffer-Delivers :
        (used : ℕ) (q : List (Packet E)) (m : Pool)
        → 0 < header
        → space < 0x100000000
        → used ≤ space
        → AllAtLeast header (events q)
        → Delivers used q (filled used q m)
    unfolding fill_buffer
    fill_buffer-Delivers used [] m hp hs hu ha = record {
      output_eq = refl;
      queue_eq = refl;
      used_eq = omega arith;
    }
    fill_buffer-Delivers used (p ∷ q) m hp hs hu ha = elim (dec_le (used + size p.event) space) [
      | yes h ↦ rw (fill_buffer_fits used p q m hp ha.0 hs h) (
          Delivers-fits used p q _ h (
            fill_buffer-Delivers (used + size p.event) q (free p.block (free p.event_block m)) hp hs
              h ha.1))
      | no h ↦
          rw (fill_buffer_stops used p q m hu (omega arith))
            (Delivers-stops used p q m hu (omega arith))
    ]

    -- Where the pool holds the queue's blocks and those of others, the packets delivered are freed,
    -- each block once, and those left waiting are kept.
    pub fill_buffer-Holds :
        (used : ℕ) (q : List (Packet E)) (m : Pool) (others : List ℕ)
        → Holds m (blocks q ++ others)
        → Holds (filled used q m).pool (blocks (filled used q m).queue ++ others)
    unfolding fill_buffer
    fill_buffer-Holds used [] m others h = h
    fill_buffer-Holds used (p ∷ q) m others h =
        let rest =
          fill_buffer-Holds ((used + size p.event) % 0x100000000) q
            (free p.block (free p.event_block m)) others
            (free_packet-Holds p m (blocks q ++ others) h) in
        elim (Bool-cases (ltb used space && leb header (space - used))) [
          | inl e ↦ elim (Bool-cases (leb (size p.event) (space - used))) [
            | inl fits ↦ rw (e, fits) rest
            | inr large ↦ rw (e, large) h
          ]
          | inr e ↦ rw e h
        ]
