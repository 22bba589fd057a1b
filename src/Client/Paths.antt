-- ===== src/Client/Paths.antt =====
-- ProcessManager::convertFileObjectPathToDOSPath and convertDevicePathToDOSDrive (ProcessManager.cpp):
-- the path of an image as the user knows it.
pub mod Converting
use hsn_capture_hpc_ng.Base.{
  ℕ, zero, suc, ◌+◌, ◌≡◌, ◌≢◌, refl, List, [], ◌∷◌, ◌++◌, Bool, true, false, ◌&&◌, Option, none,
  some, if◌then◌else◌, ◌==◌, ltb, length, take, drop, is_same, find_from, arith, Bool-cases,
  Option-cases, inl, inr,
}

abbrev pub backslash : ℕ
backslash = 0x5C

-- What GetLongPathName answers for a buffer of 2048 characters: it fails with zero, writes a path, or
-- writes nothing and answers with the size that it needs.
pub data LongPath : Type 0 where
  long_path_failed long_path_too_long : LongPath
  long_path : List ℕ → LongPath

-- pathOffset: npos + 1 is zero.
pub path_offset : List ℕ → Option ℕ
path_offset path = elim (find_from backslash 1 0 path) [
  | none ↦ find_from backslash 0 0 path
  | some i ↦ find_from backslash (suc i) 0 path
]

pub begins_with_backslash : List ℕ → Bool
begins_with_backslash [] = false
begins_with_backslash (c ∷ cs) = c == backslash

-- Whether the path is taken for one of a device.
pub is_device_path : List ℕ → Bool
unfolding begins_with_backslash
is_device_path path = begins_with_backslash path && ltb 23 (length path)

-- The end of the conversion; `none` where the buffer is used that nothing was written to.
pub lengthened : List ℕ → LongPath → Option (List ℕ)
lengthened path long_path_failed = some path
lengthened path long_path_too_long = none
lengthened path (long_path longer) = some longer

-- The path behind the drive's name.
pub on_drive : List ℕ → ℕ → List ℕ → List ℕ
on_drive drive i path = drive ++ drop i path

-- QueryDosDevice: the first target of a drive's name, or a failure.
module _ (query_dos_device : List ℕ → Option (List ℕ)) where
  is_drive_of : List ℕ → ℕ → Bool
  is_drive_of device drive = elim (query_dos_device (drive ∷ b':' ∷ [])) [
    | none ↦ false
    | some target ↦ is_same device target
  ]

  -- convertDevicePathToDOSDrive, the loop over so many drives.
  first_drive : ℕ → ℕ → List ℕ → List ℕ
  unfolding is_drive_of
  first_drive zero drive device = b'?' ∷ b':' ∷ []
  first_drive (suc n) drive device =
      let later : List ℕ = first_drive n (drive + 1) device in
      if is_drive_of device drive then drive ∷ b':' ∷ [] else later

  pub convert_device_path_to_dos_drive : List ℕ → List ℕ
  unfolding first_drive
  convert_device_path_to_dos_drive device = first_drive 26 b'A' device

  module _ (get_long_path_name : List ℕ → LongPath) where
    -- convertFileObjectPathToDOSPath; `none` is the exception of substr at npos, or the buffer that
    -- nothing was written to.
    unfoldable pub convert : List ℕ → Option (List ℕ)
    unfolding path_offset is_device_path lengthened convert_device_path_to_dos_drive on_drive
    convert path =
        if is_device_path path
        then elim (path_offset path) [
          | none ↦ none
          | some i ↦
              let drive : List ℕ = convert_device_path_to_dos_drive (take i path) in
              lengthened (on_drive drive i path) (get_long_path_name (on_drive drive i path))
        ]
        else some path
