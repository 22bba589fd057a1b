-- ===== src/EventQueue/Reading.antt =====
-- The loop by which the userspace monitors take the events out of the buffer again, in
-- Client/RegistryMonitor.cpp and Client/FileMonitor.cpp.
use hsn_capture_hpc_ng.Base.{
  ℕ, zero, suc, ◌+◌, ◌%◌, ◌≤◌, ◌<◌, ◌≡◌, ◌∙◌, ap, Option, none, some, List, [], ◌∷◌, ◌++◌, arith,
  if◌then◌else◌, Bool, false, not, ltb, ◌&&◌, length, append_assoc, ◌==◌,
}
use native.Mathlib.Nat.{mod-eq_of_lt}
use hsn_capture_hpc_ng.EventQueue.{Copied}
use hsn_capture_hpc_ng.EventQueue.Filling.{AllAtLeast, total, layout, placed}

module _ {E : Type 0} where
  -- The event that starts at an offset; `none` if none was copied there.
  abbrev pub event_at : ℕ → List (Copied E) → Option E
  event_at o [] = none
  event_at o (c ∷ cs) = if o == c.offset then some c.event else event_at o cs

  -- What follows in the list of events read.
  abbrev pub and_then : E → Option (List E) → Option (List E)
  and_then e none = none
  and_then e (some es) = some (e ∷ es)

  -- The do-while loop, on fuel: the events handled in order, `none` if the offset leaves the
  -- events or the fuel runs out. `should_stop o` is the thread's answer when the offset is o.
  pub read_events : (E → ℕ) → (ℕ → Bool) → ℕ → List (Copied E) → ℕ → ℕ → Option (List E)
  read_events size should_stop zero cs returned offset = none
  read_events size should_stop (suc fuel) cs returned offset = elim (event_at offset cs) [
    | none ↦ none
    | some e ↦
        let next : ℕ = (offset + size e) % 0x100000000 in
        let rest : Option (List E) = read_events size should_stop fuel cs returned next in
        if not (should_stop next) && ltb next returned then and_then e rest else some (e ∷ [])
  ]

  -- Every offset is below the bound.
  abbrev AllBelow : ℕ → List (Copied E) → Type 0
  AllBelow o [] = Unit {0}
  AllBelow o (c ∷ cs) = (c.offset < o) × AllBelow o cs

  AllBelow-mono : (o o' : ℕ) (cs : List (Copied E)) → o ≤ o' → AllBelow o cs → AllBelow o' cs
  AllBelow-mono o o' [] h b = tt
  AllBelow-mono o o' (c ∷ cs) h b = (omega arith, AllBelow-mono o o' cs h b.1)

  AllBelow-snoc :
      (o : ℕ) (cs : List (Copied E)) (c : Copied E)
      → AllBelow o cs
      → c.offset < o
      → AllBelow o (cs ++ c ∷ [])
  AllBelow-snoc o [] c b h = (h, tt)
  AllBelow-snoc o (x ∷ cs) c b h = (b.0, AllBelow-snoc o cs c b.1 h)

  event_at-append :
      (o : ℕ) (e : E) (bytes : ℕ) (before after : List (Copied E))
      → AllBelow o before
      → event_at o (before ++ record { offset = o; bytes = bytes; event = e } ∷ after) ≡ some e
  event_at-append o e bytes [] after b = ground arith
  event_at-append o e bytes (c ∷ before) after b =
      ground (arith, event_at-append o e bytes before after b.1)

module _ {E : Type 0} (size : E → ℕ) (should_stop : ℕ → Bool) where
  -- One round at an event that ends where the data ends.
  read_events_last :
      (fuel o returned : ℕ) (e : E) (cs : List (Copied E))
      → event_at o cs ≡ some e
      → o + size e ≡ returned
      → returned < 0x100000000
      → read_events size should_stop (suc fuel) cs returned o ≡ some (e ∷ [])
  unfolding read_events
  read_events_last fuel o returned e cs at ends small =
      rw (at, read_events, mod-eq_of_lt {n = o + size e} {m = 0x100000000} (omega arith))
        (ground arith)

  -- One round at an event that others follow, while the thread runs.
  read_events_next :
      (fuel o returned : ℕ) (e : E) (cs : List (Copied E))
      → event_at o cs ≡ some e
      → o + size e < returned
      → returned < 0x100000000
      → should_stop (o + size e) ≡ false
      → read_events size should_stop (suc fuel) cs returned o
        ≡ and_then e (read_events size should_stop fuel cs returned (o + size e))
  unfolding read_events
  read_events_next fuel o returned e cs at more small runs =
      rw (at, read_events, mod-eq_of_lt {n = o + size e} {m = 0x100000000} (omega arith), runs)
        (ground arith)

  module _ (header : ℕ) (runs : (o : ℕ) → should_stop o ≡ false) (hp : 0 < header) where
    -- Events that lie side by side after others are read back, all of them and in order.
    pub read_events-append :
        (es : List E) (e : E) (before : List (Copied E)) (o fuel returned : ℕ)
        → AllBelow o before
        → AllAtLeast size header (e ∷ es)
        → length (e ∷ es) ≤ fuel
        → returned ≡ o + total size (e ∷ es)
        → returned < 0x100000000
        → read_events size should_stop fuel (before ++ layout size o (e ∷ es)) returned o
          ≡ some (e ∷ es)
    read_events-append es e before o zero returned b ha hf hr ht = absurd (omega arith)
    read_events-append [] e before o (suc fuel) returned b ha hf hr ht =
        read_events_last fuel o returned e _ (event_at-append o e (size e) before [] b)
          (omega arith) ht
    read_events-append (e' ∷ es) e before o (suc fuel) returned b ha hf hr ht =
        let rest = layout size (o + size e) (e' ∷ es) in
        let o' = o + size e in
        let tail =
          read_events-append es e' (before ++ placed size o e ∷ []) o' fuel returned
            (AllBelow-snoc o' before (placed size o e) (AllBelow-mono o o' before (omega arith) b)
              (omega (arith, ha.0)))
            ha.1 (omega arith) (omega arith) ht in
        read_events_next fuel o returned e _ (event_at-append o e (size e) before rest b)
          (omega (arith, ha.1.0)) ht (runs o')
        ∙ ap (and_then e) (rw (append_assoc before (placed size o e ∷ []) rest) at tail)

    -- Where the thread runs on, and the fixed part of an event is not empty, events that lie side by
    -- side from the start of a buffer of less than 2^32 bytes, none smaller than the fixed part, are
    -- read back, all of them and in order, on fuel for each of them.
    pub read_events-layout :
        (es : List E) (e : E) (fuel returned : ℕ)
        → AllAtLeast size header (e ∷ es)
        → length (e ∷ es) ≤ fuel
        → returned ≡ total size (e ∷ es)
        → returned < 0x100000000
        → read_events size should_stop fuel (layout size 0 (e ∷ es)) returned 0 ≡ some (e ∷ es)
    read_events-layout es e fuel returned ha hf hr ht =
        read_events-append es e [] 0 fuel returned tt ha hf (omega arith) ht
