-- ===== src/EventQueue/Sending.antt =====
-- What filling a buffer means for the program that asked: the longest prefix of the queue is sent,
-- and the loop that takes the buffer apart finds that prefix again.
use hsn_capture_hpc_ng.Base.{
  ℕ, ◌-◌, ◌≤◌, ◌<◌, ◌≡◌, ap, subst, List, [], ◌∷◌, ◌++◌, Option, some, Bool, false, arith, leb,
  le→leb, not-le→leb, if◌then◌else◌, length, length-append,
}
use hsn_capture_hpc_ng.Kernel.Pool.{Pool}
use hsn_capture_hpc_ng.EventQueue.{Packet, Copied, fill_buffer}
use hsn_capture_hpc_ng.EventQueue.Clearing.{events}
use hsn_capture_hpc_ng.EventQueue.Filling.{
  AllAtLeast, AllAtLeast-prefix, TooLarge, total, layout, fitting, waiting, fitting-waiting,
  total-fitting-le, waiting-TooLarge, fill_buffer-Delivers,
}
use hsn_capture_hpc_ng.EventQueue.Reading.{read_events, read_events-layout}

module _ {E : Type 0} (size : E → ℕ) where
  -- From the events `es` a prefix is sent, which lies side by side in the buffer of `len` bytes and
  -- takes up `used` of them; the next event would not fit; the others are those `after`.
  pub record Sends (len : ℕ) (es : List E) (used : ℕ) (output : List (Copied E)) (after : List E)
      : Type 0 where
    pub sent : List E
    pub whole : sent ++ after ≡ es
    pub output_eq : output ≡ layout size 0 sent
    pub used_eq : used ≡ total size sent
    pub within : used ≤ len
    pub longest : TooLarge size (len - used) after

  module _ (header len : ℕ) where
    pub fill_buffer-Sends :
        (q : List (Packet E)) (m : Pool)
        → 0 < header
        → len < 0x100000000
        → AllAtLeast size header (events q)
        → let d = fill_buffer size header len 0 q m in
          Sends len (events q) d.used d.output (events d.queue)
    fill_buffer-Sends q m hp small sized =
        let n : ℕ = len - 0 in
        let v = fill_buffer-Delivers size header len 0 q m hp small (omega arith) sized in
        record {
          sent = fitting size n (events q);
          whole = rw v.queue_eq (fitting-waiting size n (events q));
          output_eq = v.output_eq;
          used_eq = omega (arith, v.used_eq);
          within = omega (arith, v.used_eq, total-fitting-le size n (events q));
          longest = rw v.queue_eq (
              subst (λ (room : ℕ). TooLarge size room (waiting size n (events q)))
                (omega (arith, v.used_eq)) (waiting-TooLarge size n (events q)));
        }

  -- The loop over what was sent, where it is entered.
  pub receive : ℕ → (ℕ → Bool) → ℕ → List (Copied E) → ℕ → Option (List E)
  receive header should_stop fuel output returned =
      if leb header returned then read_events size should_stop fuel output returned 0 else some []

  receive-layout :
      (header : ℕ) (should_stop : ℕ → Bool) (fuel returned : ℕ) (es : List E)
      → ((o : ℕ) → should_stop o ≡ false)
      → 0 < header
      → AllAtLeast size header es
      → length es ≤ fuel
      → returned ≡ total size es
      → returned < 0x100000000
      → receive header should_stop fuel (layout size 0 es) returned ≡ some es
  unfolding receive
  receive-layout header should_stop fuel returned [] runs hp w f i s =
      rw (i, not-le→leb header 0 hp)
  receive-layout header should_stop fuel returned (e ∷ es) runs hp w f i s =
      rw (le→leb header returned (omega (arith, w.0)))
        (read_events-layout size should_stop header runs hp es e fuel returned w f i s)

  -- What was sent is received, if the thread runs on and the fuel covers the queue.
  pub receive-Sends :
      (header : ℕ) (should_stop : ℕ → Bool) (fuel : ℕ) {len used : ℕ} {es after : List E}
      {output : List (Copied E)} (v : Sends len es used output after)
      → ((o : ℕ) → should_stop o ≡ false)
      → 0 < header
      → len < 0x100000000
      → AllAtLeast size header es
      → length es ≤ fuel
      → receive header should_stop fuel output used ≡ some v.sent
  receive-Sends header should_stop fuel {len} {used} {es} {after} {output} v runs hp small sized f =
      rw v.output_eq (
        receive-layout header should_stop fuel used v.sent runs hp
          (AllAtLeast-prefix size header v.sent after (rw v.whole sized))
          (omega (arith, length-append v.sent after, ap length v.whole)) v.used_eq
          (omega (arith, v.within)))
