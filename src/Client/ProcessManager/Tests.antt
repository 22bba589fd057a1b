-- ===== src/Client/ProcessManager/Tests.antt =====
-- Runs of the process manager, with two processes that are each other's parent.
use hsn_capture_hpc_ng.Base.{
  ℕ, ◌≡◌, refl, sym, ap, ◌∙◌, List, [], ◌∷◌, ◌++◌, Bool, true, false, ◌||◌, none, some,
  if◌then◌else◌, ◌==◌, is_same, arith,
}
use hsn_capture_hpc_ng.Client.Paths.{
  LongPath, long_path, long_path_failed, long_path_too_long, begins_with_backslash, convert,
}
use hsn_capture_hpc_ng.Client.Paths.Converting.{convert_throws}
use hsn_capture_hpc_ng.Client.ProcessManager.{
  Manager, unopened, image, Environment, Run, returns, manager_on_process_event, get_process_path,
  lookup, insert_key,
}
use hsn_capture_hpc_ng.Client.ProcessManager.Mapping.{contains, missing}
use hsn_capture_hpc_ng.Client.ProcessManager.Search.{Ends, get_process_path-Ends}
use hsn_capture_hpc_ng.Client.ProcessManager.Entries.{
  ProcessEvent, on_process_events, get_process_path-created,
}

-- \De\HardDisk\Directory\x.exe
abbrev pub device : List ℕ
device = 0x5C ∷ b'D' ∷ b'e' ∷ 0x5C ∷ b'H' ∷ b'a' ∷ b'r' ∷ b'd' ∷ b'D' ∷ b'i' ∷ b's' ∷ b'k' ∷ []

abbrev pub file : List ℕ
file =
    0x5C ∷ b'D' ∷ b'i' ∷ b'r' ∷ b'e' ∷ b'c' ∷ b't' ∷ b'o' ∷ b'r' ∷ b'y' ∷ 0x5C ∷ b'x' ∷ b'.' ∷ b'e'
    ∷ b'x' ∷ b'e' ∷ []

abbrev pub is_ours : ℕ → Bool
is_ours pid = pid == 7 || pid == 8

-- The device is the drive C:.
abbrev pub env : Environment
env = record {
  query_dos_device = λ drive. if is_same drive (b'C' ∷ b':' ∷ []) then some device else none;
  get_long_path_name = long_path;
  image_of = λ pid. if is_ours pid then image (device ++ file) else unopened;
  snapshot = some ((7, 8) ∷ (8, 7) ∷ []);
  local_time = [];
  meanwhile = λ n. [];
  has_monitor = true;
  is_event_allowed = λ name parent path. false;
}

abbrev pub fresh : Manager
fresh = record {
  process_map = [];
  cache_hits = 0;
  cache_misses = 0;
  cache_failures = 0;
  process_created = true;
  waits = 0;
  reports = [];
}

pub ours-contained :
    (pid : ℕ) (p : List ℕ) → env.image_of pid ≡ image p → contains pid (7 ∷ 8 ∷ []) ≡ true
ours-contained pid p h = ground arith

get_process_path-Ends_example : Ends fresh (get_process_path env 3 7 fresh)
unfolding missing lookup
get_process_path-Ends_example =
    get_process_path-Ends env (7 ∷ 8 ∷ []) ours-contained 3 7 fresh (omega arith)

-- Both are found, and reported.
abbrev path_found : Run (List ℕ × Manager) → List ℕ
path_found (returns (p, s)) = p
path_found r = []

found : path_found (get_process_path env 3 7 fresh) ≡ b'C' ∷ b':' ∷ file
unfolding get_process_path convert
found = refl

abbrev events : List ProcessEvent
events = record { created = false; process_id = 7; path = [] } ∷ []

abbrev after : Manager
after = record fresh { process_map = (7, b'C' ∷ b':' ∷ file) ∷ [] }

-- The path in an answer of GetLongPathName.
abbrev path_in : LongPath → List ℕ
path_in long_path_failed = []
path_in long_path_too_long = []
path_in (long_path l) = l

-- A path is its own long form.
stays_long :
    (q l : List ℕ)
    → begins_with_backslash q ≡ false
    → env.get_long_path_name q ≡ long_path l
    → begins_with_backslash l ≡ false
stays_long q l plain h = sym (ap (λ (x : LongPath). begins_with_backslash (path_in x)) h) ∙ plain

get_process_path-created_example :
    get_process_path env 1 7 after ≡ returns (b'C' ∷ b':' ∷ file, record after { cache_hits = 1 })
unfolding on_process_events manager_on_process_event convert insert_key
get_process_path-created_example =
    get_process_path-created env 7 (device ++ file) (b'C' ∷ b':' ∷ file) events fresh after 0 refl
      refl stays_long (refl, tt) refl

abbrev disk : List ℕ
disk = b'H' ∷ b'a' ∷ b'r' ∷ b'd' ∷ b'D' ∷ b'i' ∷ b's' ∷ b'k' ∷ []

convert_throws_example :
    convert env.query_dos_device env.get_long_path_name
      (0x5C ∷ (disk ++ disk ++ disk) ++ 0x5C ∷ disk)
    ≡ none
convert_throws_example =
    convert_throws env.query_dos_device env.get_long_path_name (disk ++ disk ++ disk) disk
      (ground arith) (ground arith) (omega arith)
