-- ===== src/Client/ProcessMonitor.antt =====
-- ProcessMonitor.cpp: the loop over the events of the driver, and the map that the driver is given; with
-- ProcessManager::initialiseProcessMap (ProcessManager.cpp), which fills that map.
use hsn_capture_hpc_ng.Base.{
  ℕ, zero, suc, ◌+◌, List, [], ◌∷◌, ◌++◌, Bool, true, false, not, ◌&&◌, ◌||◌, Option, none, some,
  if◌then◌else◌, ◌==◌, ltb, leb, length, take, map,
}
use hsn_capture_hpc_ng.Client.ProcessManager.{
  Manager, Image, unopened, unnamed, image, Environment, M, ◌>>=◌, ◌>>◌, pure, returns, throws,
  out_of_fuel, insert_process, get_process_path, on_process_event,
}
pub mod Handling
mod Tests

-- ProcessInfo, without the path, which the loop does not read.
pub record ProcessInfo : Type 0 where
  pub time : List ℕ
  pub parent_id : ℕ
  pub process_id : ℕ
  pub create : Bool

-- tempP before the first event: all of it zero.
abbrev pub zeroed : ProcessInfo
zeroed = record { time = []; parent_id = 0; process_id = 0; create = false }

abbrev same_bool : Bool → Bool → Bool
same_bool true b = b
same_bool false b = not b

-- Whether an event is the one handled last, but for its time.
pub is_repeated : ProcessInfo → ProcessInfo → Bool
is_repeated p last =
    same_bool p.create last.create
    && (p.parent_id == last.parent_id && p.process_id == last.process_id)

module _ (env : Environment) (fuel : ℕ) where
  -- An event that was handled before: the paths are looked up to print them.
  pub handle_repeated : ProcessInfo → ProcessInfo → M ProcessInfo
  handle_repeated last p = do
    own ← get_process_path env fuel p.process_id
    parent ← get_process_path env fuel p.parent_id
    pure last

  pub handle_new : ProcessInfo → M ProcessInfo
  handle_new p = do
    on_process_event env (get_process_path env fuel) p.create p.process_id p.parent_id p.time
    pure p

  -- One round at an event: the event handled last then.
  pub handle_event : ProcessInfo → ProcessInfo → M ProcessInfo
  unfolding is_repeated handle_repeated handle_new
  handle_event last p = if is_repeated p last then handle_repeated last p else handle_new p

  -- The loop of run, by the answers of DeviceIoControl: none where no bytes were returned.
  pub run : ProcessInfo → List (Option ProcessInfo) → M ProcessInfo
  unfolding handle_event
  run last [] = pure last
  run last (none ∷ answers) = run last answers
  run last (some p ∷ answers) = handle_event last p >>= (λ q. run q answers)

  -- initialiseProcessMap, one process: whether it can be opened and its modules be listed, and its
  -- image. One whose name is not to be had leaves a buffer that nothing was written to, which is `throws`.
  pub insert_found : ℕ → Image → M (Unit {0})
  insert_found pid unopened s =
      insert_process env pid (b'<' ∷ b'u' ∷ b'n' ∷ b'k' ∷ b'n' ∷ b'o' ∷ b'w' ∷ b'n' ∷ b'>' ∷ []) s
  insert_found pid unnamed s = throws
  insert_found pid (image path) s = insert_process env pid path s

  -- The loop over the processes that EnumProcesses names.
  pub insert_each : List (ℕ × Image) → M (Unit {0})
  unfolding insert_found
  insert_each [] = pure tt
  insert_each ((pid, answer) ∷ rest) =
      let others = insert_each rest in
      if pid == 0 then others else insert_found pid answer >> others

  pub initialise_process_map : Option (List (ℕ × Image)) → M (Unit {0})
  unfolding insert_each
  initialise_process_map none = pure tt
  initialise_process_map (some processes) = insert_each (take 1024 processes)

-- initialiseKernelDriverProcessMap: the tuples that the driver is sent; `none` where a path is longer
-- than the 1024 characters that a tuple has room for.
pub driver_tuples : List (ℕ × List ℕ) → Option (List (ℕ × List ℕ))
driver_tuples [] = some []
driver_tuples ((pid, path) ∷ rest) =
    let sent = driver_tuples rest in
    if ltb 1024 (length path)
    then none
    else elim sent [ none ↦ none | some tuples ↦ some ((pid, path) ∷ tuples) ]
