-- ===== src/File/Tests/Operations.antt =====
-- An operation that marks a file for deletion, and what the kernel answers.
use hsn_capture_hpc_ng.Base.{
  ℕ, ◌+◌, refl, arith, List, [], ◌∷◌, none, some, true, false, inl, take, drop,
}
use hsn_capture_hpc_ng.Kernel.Text.{UnicodeString}
use hsn_capture_hpc_ng.File.{FileEvent}
use hsn_capture_hpc_ng.File.DosName.{named, get_dos_device_name}
use hsn_capture_hpc_ng.File.Copy.{copy_buffer_size}
use hsn_capture_hpc_ng.File.Deletion.{Request, NameInformation, DeletionAnswers}
use hsn_capture_hpc_ng.File.Deletion.Keeping.{ReadsFile}
use hsn_capture_hpc_ng.File.Deletion.Preserving.{IsGranted, Fits, drive_of}
use hsn_capture_hpc_ng.File.PreOperation.{Operation, PreAnswers, Completion}
use hsn_capture_hpc_ng.File.PreOperation.Beginning.{IsSafe}
use hsn_capture_hpc_ng.Kernel.Pool.{Pool}

abbrev text : List ℕ → UnicodeString
text cs = record { characters = cs; maximum_length = 20 }

-- A file of three bytes.
abbrev pub contents : List ℕ
contents = 1 ∷ 2 ∷ 3 ∷ []

abbrev pub request : Request
request = record { major_function = 6; minor_function = 0; delete_file = some true }

-- \D\E on a volume with the drive C:.
abbrev pub name : NameInformation
name = record {
  name = text (0x56 ∷ 0x5C ∷ 0x44 ∷ 0x5C ∷ 0x45 ∷ []);
  share = text [];
  parent_dir = text (0x5C ∷ 0x44 ∷ 0x5C ∷ []);
  final_component = text (0x45 ∷ []);
}

abbrev pub deletion : DeletionAnswers
deletion = record {
  is_directory = false;
  is_synchronous = true;
  parse_status = 0;
  volume = named 40 (text (0x43 ∷ 0x3A ∷ []));
  drive_block = some 41;
  path_block = some 42;
  directory_block = some 43;
  whole_block = some 44;
  loop_blocks = λ i. some (50 + i);
  copy = record { query_status = 0; create_status = 0; reference_status = 0; buffer = some 45 };
  read = λ o. (0, take copy_buffer_size (drop o contents));
  fuel = 4;
}

abbrev pub operation : Operation
operation = record {
  is_fs_filter = false;
  request = request;
  file_object = some (record { flags = 7; has_related = false; file_name = text [] });
  thread_process = some 8;
  current_process = 4;
  time = 1;
}

abbrev memory : FileEvent
memory = record {
  major_type = 0;
  minor_type = 0;
  status = 0;
  information = 0;
  flags = 0;
  time = 0;
  process_id = 0;
  path_length = 0;
  path = [];
}

abbrev pub answers : PreAnswers
answers = record {
  path_block = some 60;
  normalized_status = 0;
  normalized = name;
  opened_status = 0;
  opened = name;
  deletion = deletion;
  device_block = some 61;
  size_status = 0;
  size = 0;
  volume_block = none;
  volume_status = 0;
  volume_name = [];
  event_block = some 5;
  memory = memory;
}

abbrev pub completion : Completion
completion = record { status = 0; information = 0; now = 8; packet = some 6 }

reads_file : ReadsFile contents deletion
reads_file = record {
  reads = record { bytes_at = λ o. refl; succeeds = λ o h. refl };
  enough = omega arith;
}

pub is_safe : IsSafe contents operation answers
is_safe = record {
  drive_kept = refl;
  file_read = reads_file;
  information_set = inl refl;
  device = 61;
  device_allocated = refl;
}

pub is_granted : IsGranted contents deletion
is_granted = record {
  parsed = refl;
  path = 42;
  path_allocated = refl;
  directory = 43;
  directory_allocated = refl;
  whole = 44;
  whole_allocated = refl;
  each = λ i. 50 + i;
  each_allocated = refl;
  queried = refl;
  created = refl;
  referenced = refl;
  buffer = 45;
  buffer_allocated = refl;
  file_read = reads_file;
}

abbrev pub log : UnicodeString
log = text (0x4C ∷ [])

pub fits : (m : Pool) → Fits log (drive_of name deletion m) name deletion
unfolding get_dos_device_name
fits m = record {
  log_bounded = omega arith;
  volume_bounded = (omega arith, omega arith);
  parent_bounded = omega arith;
  final_bounded = omega arith;
  small = omega arith;
}
