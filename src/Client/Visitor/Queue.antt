-- ===== src/Client/Visitor/Queue.antt =====
-- The queue of visits between the thread that receives messages and the thread of Visitor::run
-- (Visitor.cpp): every interleaving of their steps. The two threads share the queue without a lock: a
-- push that overlaps with front or pop is undefined.
use hsn_capture_hpc_ng.Base.{
  ℕ, ◌+◌, ◌≤◌, List, [], ◌∷◌, ◌++◌, Bool, true, false, Option, none, some, length, length-append,
  append_assoc, suc, if◌then◌else◌, Bool-cases, inl, inr, ◌≡◌, ◌≢◌, refl, sym, ap, ◌∙◌, arith,
  subst,
}
use hsn_capture_hpc_ng.Client.Visitor.{
  Url, VisitEvent, Place, waiting, woken, visiting, Visitor, new_visitor, enqueue, set_event, wake,
  take_visit, end_visit,
}

-- Where the thread that receives messages stands: within a push, between it and SetEvent, or elsewhere.
pub data Sender : Type 0 where
  elsewhere to_signal : Sender
  pushing : VisitEvent → Sender

-- The visitor, its sender, and whether its thread is within front and pop.
pub record Shared : Type 0 where
  pub visitor : Visitor
  pub sender : Sender
  pub taking : Bool

-- The beginning of a push, and that of front and pop; `none` where the other is under way.
unfoldable pub push_begun : VisitEvent → Shared → Option Shared
push_begun e s = if s.taking then none else some (record s { sender = pushing e })

take_begun_at : Sender → Shared → Option Shared
take_begun_at elsewhere s = some (record s { taking = true })
take_begun_at to_signal s = some (record s { taking = true })
take_begun_at (pushing e) s = none

pub take_begun : Shared → Option Shared
unfolding take_begun_at
take_begun s = take_begun_at s.sender s

-- What can come to pass: the visits that were received with URLs, those that were begun, and the
-- state, after any sequence of steps of the two threads; no state where it is undefined.
pub data Reach : List VisitEvent → List VisitEvent → Option Shared → Type 0 where
  created :
      Reach [] [] (some (record { visitor = new_visitor; sender = elsewhere; taking = false }))
  receives :
      (e : VisitEvent) (u : Url) (us : List Url) (rs bs : List VisitEvent) (s : Shared)
      → Reach rs bs (some s)
      → s.sender ≡ elsewhere
      → e.urls ≡ u ∷ us
      → Reach rs bs (push_begun e s)
  pushed :
      (e : VisitEvent) (rs bs : List VisitEvent) (s : Shared)
      → Reach rs bs (some s)
      → s.sender ≡ pushing e
      → Reach
          (rs ++ (e ∷ []))
          bs
          (some (record s { visitor = enqueue e s.visitor; sender = to_signal }))
  signalled :
      (rs bs : List VisitEvent) (s : Shared)
      → Reach rs bs (some s)
      → s.sender ≡ to_signal
      → Reach rs bs (some (record s { visitor = set_event s.visitor; sender = elsewhere }))
  awoke :
      (rs bs : List VisitEvent) (s : Shared)
      → Reach rs bs (some s)
      → s.visitor.thread ≡ waiting
      → s.visitor.queue_not_empty ≡ true
      → Reach rs bs (some (record s { visitor = wake s.visitor }))
  takes :
      (rs bs : List VisitEvent) (s : Shared)
      → Reach rs bs (some s)
      → s.visitor.thread ≡ woken
      → s.taking ≡ false
      → Reach rs bs (take_begun s)
  took :
      (e : VisitEvent) (es rs bs : List VisitEvent) (s : Shared) (v' : Visitor)
      → Reach rs bs (some s)
      → s.visitor.thread ≡ woken
      → s.taking ≡ true
      → s.visitor.to_visit ≡ e ∷ es
      → take_visit s.visitor ≡ some v'
      → Reach rs (bs ++ (e ∷ [])) (some (record s { visitor = v'; taking = false }))
  ended :
      (e : VisitEvent) (rs bs : List VisitEvent) (s : Shared)
      → Reach rs bs (some s)
      → s.visitor.thread ≡ visiting e
      → Reach rs bs (some (record s { visitor = end_visit s.visitor }))

-- A step of the thread alone.
pub data ThreadStep (v : Visitor) : Visitor → Type 0 where
  wakes_up : v.thread ≡ waiting → v.queue_not_empty ≡ true → ThreadStep v (wake v)
  takes_visit : (w : Visitor) → v.thread ≡ woken → take_visit v ≡ some w → ThreadStep v w
  ends_visit : (e : VisitEvent) → v.thread ≡ visiting e → ThreadStep v (end_visit v)

place : Place → ℕ
place waiting = 0
place woken = 1
place (visiting e) = 2

-- While the thread waits and the event is not set, it takes no step.
no_step : (v w : Visitor) → ThreadStep v w → v.thread ≡ waiting → v.queue_not_empty ≡ false → ⊥
unfolding place
no_step v _ (wakes_up t q) at unset = absurd (ground (arith, q, unset))
no_step v _ (takes_visit w t k) at unset =
    let clash : 0 ≡ 1 = sym (ap place at) ∙ ap place t in absurd (omega (arith, clash))
no_step v _ (ends_visit e t) at unset =
    let clash : 0 ≡ 2 = sym (ap place at) ∙ ap place t in absurd (omega (arith, clash))

-- The visits that the event and the thread count on.
abbrev due : Bool → ℕ
due true = 1
due false = 0

abbrev claimed : Place → ℕ
claimed waiting = 0
claimed woken = 1
claimed (visiting e) = 0

abbrev owed : Sender → ℕ
owed elsewhere = 0
owed to_signal = 1
owed (pushing e) = 0

record IsOrdered (rs bs : List VisitEvent) (o : ℕ) (v : Visitor) : Type 0 where
  order : rs ≡ bs ++ v.to_visit
  enough : due v.queue_not_empty + claimed v.thread + o ≤ length v.to_visit

enqueue-IsOrdered :
    (e : VisitEvent) (rs bs : List VisitEvent) (v : Visitor)
    → IsOrdered rs bs 0 v
    → IsOrdered (rs ++ (e ∷ [])) bs 1 (enqueue e v)
unfolding enqueue
enqueue-IsOrdered e rs bs v h = record {
  order =
      ap (λ (xs : List VisitEvent). xs ++ (e ∷ [])) h.order ∙ append_assoc bs v.to_visit (e ∷ []);
  enough = omega (arith, h.enough, length-append v.to_visit (e ∷ []));
}

set_event-IsOrdered :
    (rs bs : List VisitEvent) (v : Visitor) → IsOrdered rs bs 1 v → IsOrdered rs bs 0 (set_event v)
unfolding set_event
set_event-IsOrdered rs bs v h = record { order = h.order; enough = omega (arith, h.enough) }

wake-IsOrdered :
    (rs bs : List VisitEvent) (o : ℕ) (v : Visitor)
    → IsOrdered rs bs o v
    → v.thread ≡ waiting
    → v.queue_not_empty ≡ true
    → IsOrdered rs bs o (wake v)
unfolding wake
wake-IsOrdered rs bs o v h t q =
    let room : 1 + 0 + o ≤ length v.to_visit = rw (t, q) at h.enough in
    record { order = h.order; enough = omega (arith, room) }

take_visit-IsOrdered :
    (e : VisitEvent) (es rs bs : List VisitEvent) (o : ℕ) (v : Visitor)
    → IsOrdered rs bs o v
    → v.thread ≡ woken
    → v.to_visit ≡ e ∷ es
    → IsOrdered rs (bs ++ (e ∷ [])) o (record v { to_visit = es; thread = visiting e })
take_visit-IsOrdered e es rs bs o v h t q =
    let room : due v.queue_not_empty + 1 + o ≤ suc (length es) = rw (t, q) at h.enough in
    record {
      order = h.order ∙ (ap (◌++◌ bs) q ∙ sym (append_assoc bs (e ∷ []) es));
      enough = omega (arith, room);
    }

-- What front and pop leave of a queue that is not empty.
take_visit_cons :
    (e : VisitEvent) (es : List VisitEvent) (v : Visitor)
    → v.to_visit ≡ e ∷ es
    → take_visit v ≡ some (record v { to_visit = es; thread = visiting e })
unfolding take_visit
take_visit_cons e es v q = rw (q, take_visit) refl

some_eq : (v w : Visitor) → some v ≡ some w → v ≡ w
some_eq v w = ap (λ (o : Option Visitor). elim o [ none ↦ v | some x ↦ x ])

abbrev OrderedIn : List VisitEvent → List VisitEvent → Option Shared → Type 0
OrderedIn rs bs none = Unit {0}
OrderedIn rs bs (some s) = IsOrdered rs bs (owed s.sender) s.visitor

push_begun-OrderedIn :
    (e : VisitEvent) (rs bs : List VisitEvent) (s : Shared)
    → IsOrdered rs bs 0 s.visitor
    → OrderedIn rs bs (push_begun e s)
unfolding push_begun
push_begun-OrderedIn e rs bs s h = elim (Bool-cases s.taking) [
  | inl t ↦ rw (t, push_begun) tt
  | inr t ↦ rw (t, push_begun) h
]

take_begun-OrderedIn :
    (o : Sender) (rs bs : List VisitEvent) (s : Shared)
    → IsOrdered rs bs (owed s.sender) s.visitor
    → OrderedIn rs bs (take_begun_at o s)
unfolding take_begun_at
take_begun-OrderedIn elsewhere rs bs s h = h
take_begun-OrderedIn to_signal rs bs s h = h
take_begun-OrderedIn (pushing e) rs bs s h = tt

-- What is known of a sender is known of the state.
at_sender :
    (rs bs : List VisitEvent) (s : Shared) (o : Sender)
    → s.sender ≡ o
    → IsOrdered rs bs (owed s.sender) s.visitor
    → IsOrdered rs bs (owed o) s.visitor
at_sender rs bs s o e h = subst (λ (x : Sender). IsOrdered rs bs (owed x) s.visitor) e h

Reach-OrderedIn : (rs bs : List VisitEvent) (o : Option Shared) → Reach rs bs o → OrderedIn rs bs o
unfolding new_visitor end_visit take_begun
Reach-OrderedIn rs bs o created = record { order = refl; enough = omega arith }
Reach-OrderedIn rs bs o (receives e u us rs1 bs1 s r idle h) =
    push_begun-OrderedIn e rs1 bs1 s
      (at_sender rs1 bs1 s elsewhere idle (Reach-OrderedIn rs1 bs1 (some s) r))
Reach-OrderedIn rs bs o (pushed e rs1 bs1 s r p) =
    enqueue-IsOrdered e rs1 bs1 s.visitor
      (at_sender rs1 bs1 s (pushing e) p (Reach-OrderedIn rs1 bs1 (some s) r))
Reach-OrderedIn rs bs o (signalled rs1 bs1 s r p) =
    set_event-IsOrdered rs1 bs1 s.visitor
      (at_sender rs1 bs1 s to_signal p (Reach-OrderedIn rs1 bs1 (some s) r))
Reach-OrderedIn rs bs o (awoke rs1 bs1 s r t q) =
    wake-IsOrdered rs1 bs1 (owed s.sender) s.visitor (Reach-OrderedIn rs1 bs1 (some s) r) t q
Reach-OrderedIn rs bs o (takes rs1 bs1 s r t idle) =
    take_begun-OrderedIn s.sender rs1 bs1 s (Reach-OrderedIn rs1 bs1 (some s) r)
Reach-OrderedIn rs bs o (took e es rs1 bs1 s v2 r t p q k) =
    subst (IsOrdered rs1 (bs1 ++ (e ∷ [])) (owed s.sender))
      (some_eq (record s.visitor { to_visit = es; thread = visiting e }) v2
        (sym (take_visit_cons e es s.visitor q) ∙ k))
      (take_visit-IsOrdered e es rs1 bs1 (owed s.sender) s.visitor
        (Reach-OrderedIn rs1 bs1 (some s) r) t q)
Reach-OrderedIn rs bs o (ended e rs1 bs1 s r t) =
    let h = Reach-OrderedIn rs1 bs1 (some s) r in
    let room : due s.visitor.queue_not_empty + 0 + owed s.sender ≤ length s.visitor.to_visit =
      rw t at h.enough in
    record { order = h.order; enough = omega (arith, room) }

take_visit-Safe :
    (v : Visitor) (xs : List VisitEvent) → v.to_visit ≡ xs → 1 ≤ length xs → take_visit v ≢ none
unfolding take_visit
take_visit-Safe v [] q h = absurd (omega arith)
take_visit-Safe v (e ∷ es) q h = λ bad.
    let clash : some (record v { to_visit = es; thread = visiting e }) ≡ none =
      sym (take_visit_cons e es v q) ∙ bad in
    cc

-- However messages and the thread of the visitor interleave, as long as no push overlaps with the
-- thread's front and pop, the visits that were received with URLs are those that were begun, in their
-- order, followed by those in the queue; and when the thread was woken, it finds a visit in the queue.
pub Reach-InOrder :
    (rs bs : List VisitEvent) (s : Shared)
    → Reach rs bs (some s)
    → (rs ≡ bs ++ s.visitor.to_visit) × (s.visitor.thread ≡ woken → take_visit s.visitor ≢ none)
Reach-InOrder rs bs s r =
    let h = Reach-OrderedIn rs bs (some s) r in
    (
      h.order,
      λ t.
          let room : due s.visitor.queue_not_empty + 1 + owed s.sender ≤ length s.visitor.to_visit =
            rw t at h.enough in
          take_visit-Safe s.visitor s.visitor.to_visit refl (omega (arith, room)),
    )

-- A visitor, with nothing under way.
abbrev pub alone : Visitor → Shared
alone v = record { visitor = v; sender = elsewhere; taking = false }

-- A push that nothing overlaps with, and its signal.
pub received_alone :
    (e : VisitEvent) (u : Url) (us : List Url) (rs bs : List VisitEvent) (v : Visitor)
    → e.urls ≡ u ∷ us
    → Reach rs bs (some (alone v))
    → Reach (rs ++ (e ∷ [])) bs (some (alone (set_event (enqueue e v))))
unfolding push_begun
received_alone e u us rs bs v h r =
    let s1 : Shared = record { visitor = v; sender = pushing e; taking = false } in
    let s2 : Shared = record { visitor = enqueue e v; sender = to_signal; taking = false } in
    let begun : Reach rs bs (some s1) = receives e u us rs bs (alone v) r refl h in
    let ended_push : Reach (rs ++ (e ∷ [])) bs (some s2) = pushed e rs bs s1 begun refl in
    signalled (rs ++ (e ∷ [])) bs s2 ended_push refl

-- Two visits that come one after the other while the thread waits set the event once: the thread
-- can begin the first and wait again, with the second in the queue and the event not set, so that no
-- further step of the thread is possible in that state.
pub Reach-Forgets :
    (e1 e2 : VisitEvent) (u1 u2 : Url) (us1 us2 : List Url) (rs bs : List VisitEvent) (v : Visitor)
    → e1.urls ≡ u1 ∷ us1
    → e2.urls ≡ u2 ∷ us2
    → Reach rs bs (some (alone v))
    → v.thread ≡ waiting
    → v.to_visit ≡ []
    → (v' : Visitor) × (Reach (rs ++ (e1 ∷ e2 ∷ [])) (bs ++ (e1 ∷ [])) (some (alone v'))
        × ((v'.to_visit ≡ e2 ∷ []) × ((w : Visitor) → ¬ ThreadStep v' w)))
unfolding enqueue set_event wake take_visit end_visit take_begun take_begun_at
Reach-Forgets e1 e2 u1 u2 us1 us2 rs bs v h1 h2 r t q =
    let v2 : Visitor = record v {
      to_visit = (v.to_visit ++ (e1 ∷ [])) ++ (e2 ∷ []);
      queue_not_empty = true;
    } in
    let rs2 : List VisitEvent = rs ++ (e1 ∷ e2 ∷ []) in
    let r2 : Reach rs2 bs (some (alone v2)) = rw (append_assoc rs (e1 ∷ []) (e2 ∷ [])) at (
      received_alone e2 u2 us2 (rs ++ (e1 ∷ [])) bs _ h2 (received_alone e1 u1 us1 rs bs v h1 r)) in
    let queue : (v.to_visit ++ (e1 ∷ [])) ++ (e2 ∷ []) ≡ e1 ∷ e2 ∷ [] =
      ap (λ (xs : List VisitEvent). (xs ++ (e1 ∷ [])) ++ (e2 ∷ [])) q in
    let taken : Visitor = record v2 {
      to_visit = e2 ∷ [];
      queue_not_empty = false;
      thread = visiting e1;
    } in
    let r3 = takes rs2 bs (alone (wake v2)) (awoke rs2 bs (alone v2) r2 t refl) refl refl in
    let r4 =
      took e1 (e2 ∷ []) rs2 bs (record (alone (wake v2)) { taking = true }) taken r3 refl refl queue
        (take_visit_cons e1 (e2 ∷ []) (wake v2) queue) in
    (
      end_visit taken,
      (
        ended e1 rs2 (bs ++ (e1 ∷ [])) (alone taken) r4 refl,
        (refl, λ w step. no_step _ w step refl refl),
      ),
    )
