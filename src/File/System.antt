-- ===== src/File/System.antt =====
-- The file driver together with the operations under way: every interleaving of the calls of its
-- entry points.
use hsn_capture_hpc_ng.Base.{
  ℕ, ◌<◌, ◌≡◌, refl, subst, List, [], ◌∷◌, ◌++◌, count, Option, none, some, Bool, arith,
}
use hsn_capture_hpc_ng.Kernel.Pool.{Holds, block_of, Holds-reorder_past}
use hsn_capture_hpc_ng.EventQueue.Clearing.{blocks}
use hsn_capture_hpc_ng.File.{
  FileEvent, FileManager, driver_entry, connection_checker, post_file_operation, filter_unload,
  connect, disconnect, Setup, Input, message_callback,
}
use hsn_capture_hpc_ng.File.Invariant.{
  connect-IsValid, disconnect-IsValid, filter_unload-Holds, driver_entry-IsValid, IsValid,
  context_block, ContextIsWellFormed, connection_checker-IsValid, IsWellFormed,
  message_callback-IsValid, post_file_operation-IsValid,
}
use hsn_capture_hpc_ng.File.PreOperation.{
  Operation, PreAnswers, Completion, Begun, pre_file_operation,
}
use hsn_capture_hpc_ng.File.PreOperation.Beginning.{IsSafe, pre_file_operation-Begins}

-- The driver with the operations under way: each has an event of its own, in a block that its
-- completion will hand over.
pub record System : Type 0 where
  pub manager : FileManager
  pub pending : List (ℕ × FileEvent)

abbrev pub pending_blocks : List (ℕ × FileEvent) → List ℕ
pending_blocks [] = []
pending_blocks ((b, e) ∷ cs) = b ∷ pending_blocks cs

abbrev pub AllPending : List (ℕ × FileEvent) → Type 0
AllPending [] = Unit {0}
AllPending ((b, e) ∷ cs) = IsWellFormed e × AllPending cs

-- The operations under way, with one more if the operation has been given an event.
abbrev pub with_context : Option (ℕ × FileEvent) → List (ℕ × FileEvent) → List (ℕ × FileEvent)
with_context none cs = cs
with_context (some (b, e)) cs = (b, e) ∷ cs

-- One call of an entry point between loading and unloading. Operations that are allowed, with the
-- answers that they get, begin, and complete in any order, while messages and the timer come in
-- between.
pub data Step (Allowed : Operation → PreAnswers → Type 0) (s : System) : System → Type 0 where
  began :
      (upcase : ℕ → ℕ) (o : Operation) (a : PreAnswers) (c : Completion) (r : Begun)
      → Allowed o a
      → pre_file_operation upcase o a c s.manager ≡ some r
      → Step Allowed s (record { manager = r.manager; pending = with_context r.context s.pending })
  completed :
      (before after : List (ℕ × FileEvent)) (b : ℕ) (e : FileEvent) (draining : Bool)
      (status information now : ℕ) (answer : Option ℕ)
      → s.pending ≡ before ++ (b, e) ∷ after
      → Step Allowed s (record {
        manager =
            post_file_operation (some (b, e)) draining status information now answer s.manager;
        pending = before ++ after;
      })
  messaged :
      (i : Input) (len : ℕ) (setup : Setup) (answer : Option ℕ) (now : ℕ)
      → len < 0x100000000
      → Step Allowed s
          (record s { manager = (message_callback i len setup answer now s.manager).1 })
  checked : (now : ℕ) → Step Allowed s (record s { manager = connection_checker now s.manager })
  connected : Step Allowed s (record s { manager = connect s.manager })
  disconnected : Step Allowed s (record s { manager = disconnect s.manager })

pub data Reach (Allowed : Operation → PreAnswers → Type 0) (s : System) : System → Type 0 where
  here : Reach Allowed s s
  next : {t u : System} → Reach Allowed s t → Step Allowed t u → Reach Allowed s u

pub record IsConsistent (others : List ℕ) (s : System) : Type 0 where
  pub manager_ok : IsValid (pending_blocks s.pending ++ others) s.manager
  pub pending_ok : AllPending s.pending

AllPending-split :
    (before : List (ℕ × FileEvent)) (b : ℕ) (e : FileEvent) (after : List (ℕ × FileEvent))
    → AllPending (before ++ (b, e) ∷ after)
    → IsWellFormed e × AllPending (before ++ after)
AllPending-split [] b e after h = h
AllPending-split ((c, x) ∷ before) b e after h =
    let r = AllPending-split before b e after h.1 in (r.0, (h.0, r.1))

pending_blocks-middle :
    (a : ℕ) (before : List (ℕ × FileEvent)) (b : ℕ) (e : FileEvent) (after : List (ℕ × FileEvent))
    (others : List ℕ)
    → count a (pending_blocks (before ++ (b, e) ∷ after) ++ others)
      ≡ count a (b ∷ (pending_blocks (before ++ after) ++ others))
pending_blocks-middle a [] b e after others = refl
pending_blocks-middle a ((c, x) ∷ before) b e after others =
    omega (arith, pending_blocks-middle a before b e after others)

-- The blocks of others may be listed in any order.
IsValid-reorder :
    (xs ys : List ℕ) (f : FileManager)
    → ((a : ℕ) → count a xs ≡ count a ys)
    → IsValid xs f
    → IsValid ys f
IsValid-reorder xs ys f same v = record {
  owned =
      Holds-reorder_past f.pool (blocks f.queued_file_events) (block_of f.log_block) xs ys same
        v.owned;
  well_formed = v.well_formed;
  log_bounded = v.log_bounded;
}

with_context-IsConsistent :
    (others : List ℕ) (s : System) (f : FileManager) (context : Option (ℕ × FileEvent))
    → AllPending s.pending
    → IsValid (context_block context ++ (pending_blocks s.pending ++ others)) f
      × ContextIsWellFormed context
    → IsConsistent others (record { manager = f; pending = with_context context s.pending })
with_context-IsConsistent others s f none p h = record { manager_ok = h.0; pending_ok = p }
with_context-IsConsistent others s f (some (b, e)) p h = record {
  manager_ok = h.0;
  pending_ok = (h.1, p);
}

-- All operations that begin are safe, for contents of the files that are kept.
abbrev pub AllSafe : (Operation → PreAnswers → Type 0) → Type 0
AllSafe Allowed =
    (o : Operation) (a : PreAnswers) → Allowed o a → (contents : List ℕ) × IsSafe contents o a

-- Each such call keeps the system consistent: the pool holds the blocks of the queue, of the log
-- directory, of the operations under way and of others, and no more, and all events are well
-- formed.
Step-IsConsistent :
    (Allowed : Operation → PreAnswers → Type 0) (safe : AllSafe Allowed) (others : List ℕ)
    {s t : System}
    → Step Allowed s t
    → IsConsistent others s
    → IsConsistent others t
Step-IsConsistent Allowed safe others {s} (began upcase o a c r allowed returned) consistent =
    with_context-IsConsistent others s r.manager r.context consistent.pending_ok (
      rw returned at (
        pre_file_operation-Begins (pending_blocks s.pending ++ others) o a c s.manager
          consistent.manager_ok (safe o a allowed).0 upcase (safe o a allowed).1))
Step-IsConsistent Allowed safe others {s}
      (completed before after b e draining status information now answer split) c =
    let h = AllPending-split before b e after (subst AllPending split c.pending_ok) in
    record {
      manager_ok =
          post_file_operation-IsValid (pending_blocks (before ++ after) ++ others) (some (b, e))
            draining status information now answer s.manager h.0
            (IsValid-reorder (pending_blocks (before ++ (b, e) ∷ after) ++ others) _ s.manager
              (λ a. pending_blocks-middle a before b e after others) (rw split at c.manager_ok));
      pending_ok = h.1;
    }
Step-IsConsistent Allowed safe others {s} (messaged i len setup answer now h) c = record {
  manager_ok =
      message_callback-IsValid (pending_blocks s.pending ++ others) i len setup answer now s.manager
        h c.manager_ok;
  pending_ok = c.pending_ok;
}
Step-IsConsistent Allowed safe others {s} (checked now) c = record {
  manager_ok =
      connection_checker-IsValid (pending_blocks s.pending ++ others) now s.manager c.manager_ok;
  pending_ok = c.pending_ok;
}
Step-IsConsistent Allowed safe others {s} connected c = record {
  manager_ok = connect-IsValid (pending_blocks s.pending ++ others) s.manager c.manager_ok;
  pending_ok = c.pending_ok;
}
Step-IsConsistent Allowed safe others {s} disconnected c = record {
  manager_ok = disconnect-IsValid (pending_blocks s.pending ++ others) s.manager c.manager_ok;
  pending_ok = c.pending_ok;
}

Reach-IsConsistent :
    (Allowed : Operation → PreAnswers → Type 0) (safe : AllSafe Allowed) (others : List ℕ)
    {s t : System}
    → Reach Allowed s t
    → IsConsistent others s
    → IsConsistent others t
Reach-IsConsistent Allowed safe others here c = c
Reach-IsConsistent Allowed safe others (next r st) c =
    Step-IsConsistent Allowed safe others st (Reach-IsConsistent Allowed safe others r c)

-- Every call of DriverEntry succeeds. Then operations begin and complete, and messages with buffers
-- below 2^32 bytes, the timer, connections and disconnections come in between, in any order. Each
-- operation that begins, with the answers that it gets, is to be safe: GetDosDeviceName leaks no
-- drive name, a file that is kept can be read, the name information is set where
-- CopyFileIfBeingDeleted uses it, and the block for the start of the name is allocated. When the
-- driver is then unloaded, with no operation under way, the pool holds what it held before the load.
pub filter_unload-Reach :
    (Allowed : Operation → PreAnswers → Type 0) (others : List ℕ) (now : ℕ) (f : FileManager)
    (t : System)
    → ((o : Operation) (a : PreAnswers) → Allowed o a → (contents : List ℕ) × IsSafe contents o a)
    → Holds f.pool others
    → Reach Allowed (record { manager = (driver_entry 0 0 0 0 now f).1; pending = [] }) t
    → t.pending ≡ []
    → Holds (filter_unload t.manager).pool others
filter_unload-Reach Allowed others now f t safe h r idle = filter_unload-Holds others t.manager (
    rw idle at
      (Reach-IsConsistent Allowed safe others r
        (record { manager_ok = driver_entry-IsValid others now f h; pending_ok = tt })).manager_ok)
