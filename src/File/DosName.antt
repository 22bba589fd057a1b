-- ===== src/File/DosName.antt =====
-- GetDosDeviceName of CaptureFileMonitor.c, which names the drive of a deleted file for the path of
-- its copy.
use hsn_capture_hpc_ng.Base.{
  ℕ, ◌+◌, ◌%◌, ◌≤◌, ◌<◌, List, [], ◌∷◌, ◌++◌, Option, none, some, arith, ◌≡◌, refl, if◌then◌else◌,
  ◌==◌, length,
}
use hsn_capture_hpc_ng.Kernel.Pool.{
  Pool, Holds, block_of, allocated, allocated-Holds, free, free-Holds, Holds-swap, allocated_null,
}
use hsn_capture_hpc_ng.Kernel.Text.{
  UnicodeString, IsBounded, unicode_string_copy, unicode_string_cat, unicode_string_copy-IsBounded,
  unicode_string_cat-IsBounded,
}

-- What IoVolumeDeviceToDosName answers: a failure, or a string in a block of its own.
pub data VolumeName : Type 0 where
  unnamed : VolumeName
  named : ℕ → UnicodeString → VolumeName

-- The string pDosName, whose Buffer is the answer of the allocation, and the pool.
pub record DosName : Type 0 where
  pub name : UnicodeString
  pub block : Option ℕ
  pub pool : Pool

-- The loop: the characters but the colons.
pub without_colons : List ℕ → List ℕ
without_colons [] = []
without_colons (c ∷ cs) = if c == 0x3A then without_colons cs else c ∷ without_colons cs

-- The characters of L"\\UNKNOWN DRIVE".
abbrev pub unknown_drive : List ℕ
unknown_drive =
    0x5C ∷ b'U' ∷ b'N' ∷ b'K' ∷ b'N' ∷ b'O' ∷ b'W' ∷ b'N' ∷ 0x20 ∷ b'D' ∷ b'R' ∷ b'I' ∷ b'V' ∷ b'E'
    ∷ []

-- The name of a drive, behind a backslash.
named_drive : UnicodeString → List ℕ
unfolding without_colons
named_drive drive = 0x5C ∷ without_colons drive.characters

-- GetDosDeviceName, with the answers of IoVolumeDeviceToDosName and of the allocation.
unfoldable pub get_dos_device_name : VolumeName → Option UnicodeString → Option ℕ → Pool → DosName
unfolding named_drive
get_dos_device_name (named temporary drive) share answer m =
    let maximum : ℕ = (drive.maximum_length + 2) % 0x10000 in
    let m1 : Pool = allocated answer (allocated (some temporary) m) in
    record {
      name = record {
        characters = elim answer [ none ↦ [] | some _ ↦ named_drive drive ];
        maximum_length = maximum;
      };
      block = answer;
      pool = elim answer [ none ↦ m1 | some _ ↦ free temporary m1 ];
    }
get_dos_device_name unnamed (some share) answer m =
    let empty : UnicodeString = record { characters = []; maximum_length = share.maximum_length } in
    record {
      name = elim answer [ none ↦ empty | some _ ↦ unicode_string_copy empty share.characters ];
      block = answer;
      pool = allocated answer m;
    }
get_dos_device_name unnamed none answer m =
    let empty : UnicodeString = record { characters = []; maximum_length = 30 } in
    record {
      name = elim answer [ none ↦ empty | some _ ↦ unicode_string_cat empty unknown_drive ];
      block = answer;
      pool = allocated answer m;
    }

length-without_colons : (cs : List ℕ) → length (without_colons cs) ≤ length cs
unfolding without_colons
length-without_colons [] = omega arith
length-without_colons (c ∷ cs) = ground (arith, length-without_colons cs)

-- The name of the volume, if there is one, is within its buffer, and that is below 2^16 - 2 bytes.
abbrev pub VolumeIsBounded : VolumeName → Type 0
VolumeIsBounded unnamed = Unit {0}
VolumeIsBounded (named b drive) = IsBounded drive × (drive.maximum_length + 2 < 0x10000)

-- Where the name of the volume is within its buffer, and that is below 2^16 - 2 bytes, so is what is
-- written: no character is put behind the block that was allocated for the result.
pub get_dos_device_name-IsBounded :
    (volume : VolumeName) (share : Option UnicodeString) (answer : Option ℕ) (m : Pool)
    → VolumeIsBounded volume
    → IsBounded (get_dos_device_name volume share answer m).name
unfolding get_dos_device_name
get_dos_device_name-IsBounded (named b drive) share none m h = omega arith
get_dos_device_name-IsBounded (named b drive) share (some a) m h =
    omega (arith, h.0, h.1, length-without_colons drive.characters)
get_dos_device_name-IsBounded unnamed (some share) none m h = omega arith
get_dos_device_name-IsBounded unnamed (some share) (some a) m h =
    unicode_string_copy-IsBounded _ share.characters
get_dos_device_name-IsBounded unnamed none none m h = omega arith
get_dos_device_name-IsBounded unnamed none (some a) m h =
    unicode_string_cat-IsBounded _ unknown_drive (omega arith)

-- The block of the volume's name, where the allocation for the result fails.
abbrev pub leaked : VolumeName → Option ℕ → List ℕ
leaked unnamed answer = []
leaked (named b drive) (some a) = []
leaked (named b drive) none = b ∷ []

-- The pool holds the block of the result besides what it held; and where the volume has a name but
-- the allocation fails, the block of that name, which nothing refers to any more.
pub get_dos_device_name-Holds :
    (volume : VolumeName) (share : Option UnicodeString) (answer : Option ℕ) (m : Pool)
    (bs : List ℕ)
    → Holds m bs
    → Holds
        (get_dos_device_name volume share answer m).pool
        (block_of answer ++ (leaked volume answer ++ bs))
unfolding get_dos_device_name
get_dos_device_name-Holds (named b drive) share none m bs h =
    rw allocated_null (allocated-Holds b m bs h)
get_dos_device_name-Holds (named b drive) share (some a) m bs h =
    free-Holds b _ (a ∷ bs)
      (Holds-swap a b _ [] bs (allocated-Holds a _ (b ∷ bs) (allocated-Holds b m bs h)))
get_dos_device_name-Holds unnamed (some share) none m bs h = rw allocated_null h
get_dos_device_name-Holds unnamed (some share) (some a) m bs h = allocated-Holds a m bs h
get_dos_device_name-Holds unnamed none none m bs h = rw allocated_null h
get_dos_device_name-Holds unnamed none (some a) m bs h = allocated-Holds a m bs h

pub block-get_dos_device_name :
    (volume : VolumeName) (share : Option UnicodeString) (answer : Option ℕ) (m : Pool)
    → (get_dos_device_name volume share answer m).block ≡ answer
unfolding get_dos_device_name
block-get_dos_device_name (named b drive) share answer m = refl
block-get_dos_device_name unnamed (some share) answer m = refl
block-get_dos_device_name unnamed none answer m = refl
