-- ===== src/Client/ProcessManager.antt =====
-- ProcessManager.cpp: the paths of the processes by their ids, and ProcessMonitor::onProcessEvent
-- (ProcessMonitor.cpp), which it calls and is called by. An exception that nothing catches ends the
-- program.
pub mod Mapping
pub mod Search
pub mod Entries
pub mod Tests
use hsn_capture_hpc_ng.Base.{
  ℕ, zero, suc, ◌+◌, List, [], ◌∷◌, ◌++◌, Bool, true, false, Option, none, some, if◌then◌else◌,
  ◌==◌,
}
use hsn_capture_hpc_ng.Client.Paths.{LongPath, convert, backslash}

-- signalProcessEvent, with its arguments.
pub record Report : Type 0 where
  pub created : Bool
  pub time : List ℕ
  pub parent_process_id : ℕ
  pub parent_process_path : List ℕ
  pub process_id : ℕ
  pub process_path : List ℕ

-- ProcessManager, with the state of hProcessCreated, how often it was waited for, and what the monitor
-- has signalled.
pub record Manager : Type 0 where
  pub process_map : List (ℕ × List ℕ)
  pub cache_hits : ℕ
  pub cache_misses : ℕ
  pub cache_failures : ℕ
  pub process_created : Bool
  pub waits : ℕ
  pub reports : List Report

-- What OpenProcess and GetProcessImageFileName answer.
pub data Image : Type 0 where
  unopened unnamed : Image
  image : List ℕ → Image

-- What the calls of Windows answer: QueryDosDevice, GetLongPathName, the image of a process, the
-- snapshot of the processes with their parents, the time; what other threads insert during a wait;
-- whether there is a monitor, and its isEventAllowed.
pub record Environment : Type 0 where
  pub query_dos_device : List ℕ → Option (List ℕ)
  pub get_long_path_name : List ℕ → LongPath
  pub image_of : ℕ → Image
  pub snapshot : Option (List (ℕ × ℕ))
  pub local_time : List ℕ
  pub meanwhile : ℕ → List (ℕ × List ℕ)
  pub has_monitor : Bool
  pub is_event_allowed : List ℕ → List ℕ → List ℕ → Bool

-- What a call comes to, on fuel for the calls within calls.
pub data Run (A : Type 0) : Type 0 where
  returns : A → Run A
  throws out_of_fuel : Run A

abbrev pub M : Type 0 → Type 0
M A = Manager → Run (A × Manager)

infixl 5 ◌>>=◌ ◌>>◌
abbrev pub ◌>>=◌ : {A B : Type 0} → M A → (A → M B) → M B
◌>>=◌ m f s = elim (m s) [ returns (a, s1) ↦ f a s1 | throws ↦ throws | out_of_fuel ↦ out_of_fuel ]

abbrev pub ◌>>◌ : {B : Type 0} → M (Unit {0}) → M B → M B
m >> k = m >>= λ _. k

abbrev pub pure : {A : Type 0} → A → M A
pure a s = returns (a, s)

-- processMap: find, and insert once the entry of the id was erased.
unfoldable pub lookup : ℕ → List (ℕ × List ℕ) → Option (List ℕ)
lookup k [] = none
lookup k ((j, p) ∷ m) = if k == j then some p else lookup k m

pub erase_key : ℕ → List (ℕ × List ℕ) → List (ℕ × List ℕ)
erase_key k [] = []
erase_key k ((j, p) ∷ m) = let rest = erase_key k m in if k == j then rest else (j, p) ∷ rest

unfoldable pub insert_key : ℕ → List ℕ → List (ℕ × List ℕ) → List (ℕ × List ℕ)
unfolding erase_key
insert_key k p m = (k, p) ∷ erase_key k m

-- What other threads have inserted.
pub insert_all : List (ℕ × List ℕ) → List (ℕ × List ℕ) → List (ℕ × List ℕ)
unfolding insert_key
insert_all [] m = m
insert_all ((k, p) ∷ es) m = insert_all es (insert_key k p m)

-- L"UNKNOWN" and L"System".
abbrev pub unknown : List ℕ
unknown = b'U' ∷ b'N' ∷ b'K' ∷ b'N' ∷ b'O' ∷ b'W' ∷ b'N' ∷ []

abbrev pub system : List ℕ
system = b'S' ∷ b'y' ∷ b's' ∷ b't' ∷ b'e' ∷ b'm' ∷ []

-- The entry of a process that the snapshot names last; (DWORD) -1 if there is none.
pub parent_in : ℕ → ℕ → List (ℕ × ℕ) → ℕ
parent_in found pid [] = found
parent_in found pid ((p, parent) ∷ ps) = parent_in (if p == pid then parent else found) pid ps

-- What stands behind the last backslash.
pub module_of : List ℕ → Option (List ℕ)
module_of [] = none
module_of (c ∷ cs) = elim (module_of cs) [
  | none ↦ if c == backslash then some cs else none
  | some name ↦ some name
]

-- The exception, where there is no value.
pub or_throws : Option (List ℕ) → M (List ℕ)
or_throws none s = throws
or_throws (some p) s = returns (p, s)

module _ (env : Environment) where
  -- convertFileObjectPathToDOSPath.
  pub converted : List ℕ → M (List ℕ)
  unfolding or_throws
  converted path = or_throws (convert env.query_dos_device env.get_long_path_name path)

  pub store : ℕ → List ℕ → M (Unit {0})
  unfolding insert_key
  store pid path s =
      returns
        (tt, record s { process_map = insert_key pid path s.process_map; process_created = true })

  pub insert_process : ℕ → List ℕ → M (Unit {0})
  unfolding converted store
  insert_process pid path = do p ← converted path; store pid p

  -- ProcessManager::onProcessEvent.
  unfoldable pub manager_on_process_event : Bool → ℕ → List ℕ → M (Unit {0})
  unfolding insert_process
  manager_on_process_event created pid path =
      if created then converted path >>= (λ p. insert_process pid p) else pure tt

  pub get_parent_process_id : ℕ → ℕ
  unfolding parent_in
  get_parent_process_id pid = elim env.snapshot [
    | none ↦ 0xFFFFFFFF
    | some ps ↦ parent_in 0xFFFFFFFF pid ps
  ]

  -- WaitForSingleObject on hProcessCreated, for 100 ms at most.
  pub wait : Manager → Manager
  unfolding insert_all
  wait s = record s {
    process_map = insert_all (env.meanwhile s.waits) s.process_map;
    process_created = false;
    waits = s.waits + 1;
  }

  -- The do-while loop of getProcessPath.
  pub retry : ℕ → ℕ → Manager → Option (List ℕ) × Manager
  unfolding wait lookup
  retry zero pid s = (none, s)
  retry (suc n) pid s = elim (lookup pid s.process_map) [
    | none ↦ retry n pid (wait s)
    | some p ↦ (some p, record s { cache_hits = s.cache_hits + 1 })
  ]

  -- getProcessModuleName, by the path that getProcessPath returns.
  pub module_name : List ℕ → List ℕ
  unfolding module_of
  module_name path = elim (module_of path) [ none ↦ unknown | some name ↦ name ]

  -- signalProcessEvent, where the event is not left out.
  pub signal : List ℕ → List ℕ → Report → M (Unit {0})
  signal name parent_name r s = returns (
    tt,
    record s {
      reports =
          if env.is_event_allowed name parent_name r.process_path
          then s.reports
          else s.reports ++ (r ∷ []);
    },
  )

  -- ProcessMonitor::onProcessEvent, where `again` is getProcessPath.
  unfoldable pub on_process_event : (ℕ → M (List ℕ)) → Bool → ℕ → ℕ → List ℕ → M (Unit {0})
  unfolding manager_on_process_event module_name signal
  on_process_event again created pid parent time = do
    path ← again pid
    manager_on_process_event created pid path
    named ← again pid
    parent_named ← again parent
    parent_path ← again parent
    signal (module_name named) (module_name parent_named) (record {
      created = created;
      time = time;
      parent_process_id = parent;
      parent_process_path = parent_path;
      process_id = pid;
      process_path = path;
    })

  -- The call of the monitor for a process that was not known.
  pub announce : (ℕ → M (List ℕ)) → ℕ → M (Unit {0})
  unfolding on_process_event get_parent_process_id
  announce again pid =
      if env.has_monitor
      then on_process_event again true pid (get_parent_process_id pid) env.local_time
      else pure tt

  pub failed : M (List ℕ)
  unfolding converted
  failed s = converted unknown (record s { cache_failures = s.cache_failures + 1 })

  -- A process that is not in the map.
  pub missed : (ℕ → M (List ℕ)) → ℕ → Image → M (List ℕ)
  unfolding failed insert_process announce
  missed again pid unopened = failed
  missed again pid unnamed = failed
  missed again pid (image path) = do insert_process pid path; announce again pid; converted path

  pub searched : (ℕ → M (List ℕ)) → ℕ → Option (List ℕ) × Manager → Run (List ℕ × Manager)
  unfolding missed
  searched again pid (some p, s) = returns (p, s)
  searched again pid (none, s) =
      missed again pid (env.image_of pid) (record s { cache_misses = s.cache_misses + 1 })

  -- ProcessManager::getProcessPath, on fuel for its calls by way of the monitor.
  unfoldable pub get_process_path : ℕ → ℕ → M (List ℕ)
  unfolding searched retry
  get_process_path zero pid s = out_of_fuel
  get_process_path (suc fuel) pid s =
      if pid == 4
      then returns (system, s)
      else searched (get_process_path fuel) pid (retry 10 pid s)
