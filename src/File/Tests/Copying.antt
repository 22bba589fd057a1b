-- ===== src/File/Tests/Copying.antt =====
-- The copying of deleted files at concrete inputs.
use hsn_capture_hpc_ng.Base.{ℕ, refl, List, [], ◌∷◌, some, take, drop}
use hsn_capture_hpc_ng.Kernel.Pool.{Pool}
use hsn_capture_hpc_ng.Kernel.Text.{UnicodeString}
use hsn_capture_hpc_ng.File.Copy.{CopyAnswers, copy_buffer_size, Reads}

abbrev pool : Pool
pool = record { live = 9 ∷ []; bad_frees = 0 }

-- Two directories below the root.
abbrev root : UnicodeString
root = record { characters = 0x43 ∷ []; maximum_length = 10 }

abbrev below : UnicodeString
below = record { characters = 0x5C ∷ 0x44 ∷ 0x5C ∷ 0x45 ∷ 0x5C ∷ []; maximum_length = 10 }

-- A drive with a colon.
abbrev drive : UnicodeString
drive = record { characters = 0x43 ∷ 0x3A ∷ []; maximum_length = 6 }

-- A file of three bytes.
abbrev contents : List ℕ
contents = 1 ∷ 2 ∷ 3 ∷ []

abbrev read_file : ℕ → ℕ × List ℕ
read_file o = (0, take copy_buffer_size (drop o contents))

read_file-Reads : Reads contents copy_buffer_size read_file
read_file-Reads = record { bytes_at = λ o. refl; succeeds = λ o h. refl }

abbrev copy_answers : CopyAnswers
copy_answers = record { query_status = 0; create_status = 0; reference_status = 0; buffer = some 5 }
