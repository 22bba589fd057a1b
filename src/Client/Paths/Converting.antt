-- ===== src/Client/Paths/Converting.antt =====
-- What the conversion of a path in ProcessManager.cpp makes of it.
use hsn_capture_hpc_ng.Base.{
  ℕ, zero, suc, ◌+◌, ◌<◌, ◌≡◌, refl, subst, ◌∙◌, List, ◌∷◌, ◌++◌, true, false, Option, none, some,
  lt→ltb, length, take, drop, Lacks, find_from-here, find_from-nowhere, find_from-past, arith,
  Bool-cases, Option-cases, inl, inr,
}
use hsn_capture_hpc_ng.Client.Paths.{
  backslash, LongPath, long_path_failed, long_path_too_long, long_path, is_drive_of, first_drive,
  convert_device_path_to_dos_drive, lengthened, path_offset, begins_with_backslash, is_device_path,
  on_drive, convert,
}

module _ (query_dos_device : List ℕ → Option (List ℕ)) where
  -- A drive is named by a letter or by a question mark.
  first_drive-starts :
      (n drive : ℕ) (device rest : List ℕ)
      → drive + n < 0x5C
      → begins_with_backslash (first_drive query_dos_device n drive device ++ rest) ≡ false
  unfolding first_drive begins_with_backslash
  first_drive-starts zero drive device rest h = refl
  first_drive-starts (suc n) drive device rest h =
      elim (Bool-cases (is_drive_of query_dos_device device drive)) [
        | inl e ↦ rw e (ground arith)
        | inr e ↦ rw e (first_drive-starts n (drive + 1) device rest (omega arith))
      ]

-- The name of a device, as the kernel gives it: two parts, each behind a backslash.
abbrev pub device_of : List ℕ → List ℕ → List ℕ
device_of a b = backslash ∷ (a ++ backslash ∷ b)

-- With two backslashes there is none.
path_offset-two :
    (a b : List ℕ) → Lacks backslash a → Lacks backslash b → path_offset (device_of a b) ≡ none
unfolding path_offset
path_offset-two a b ha hb =
    let one : 1 + length a ≡ suc (length a) = omega arith in
    rw (find_from-here backslash 1 a b ha, path_offset, one)
      (find_from-past backslash 1 backslash a b
        ∙ find_from-nowhere backslash (suc (1 + length a)) b hb)

module _ (query_dos_device : List ℕ → Option (List ℕ))
    (get_long_path_name : List ℕ → LongPath) where
  lengthened-starts :
      (path d : List ℕ) (answer : LongPath)
      → begins_with_backslash path ≡ false
      → ((l : List ℕ) → answer ≡ long_path l → begins_with_backslash l ≡ false)
      → lengthened path answer ≡ some d
      → begins_with_backslash d ≡ false
  unfolding lengthened
  lengthened-starts path d long_path_failed h long e = ground (arith, h)
  lengthened-starts path d long_path_too_long h long e = ground arith
  lengthened-starts path d (long_path l) h long e = ground (arith, long l)

  abbrev conv : List ℕ → Option (List ℕ)
  conv = convert query_dos_device get_long_path_name

  convert-short : (path : List ℕ) → is_device_path path ≡ false → conv path ≡ some path
  unfolding convert
  convert-short path h = rw h refl

  convert-plain : (path : List ℕ) → begins_with_backslash path ≡ false → conv path ≡ some path
  unfolding is_device_path
  convert-plain path h = convert-short path (rw h refl)

  convert-at :
      (path : List ℕ) (i : ℕ)
      → is_device_path path ≡ true
      → path_offset path ≡ some i
      → let drive = convert_device_path_to_dos_drive query_dos_device (take i path) in
        conv path ≡ lengthened (on_drive drive i path) (get_long_path_name (on_drive drive i path))
  unfolding convert
  convert-at path i h at = rw h (rw at refl)

  convert-nowhere :
      (path : List ℕ) → is_device_path path ≡ true → path_offset path ≡ none → conv path ≡ none
  unfolding convert
  convert-nowhere path h at = rw h (rw at refl)

  on_drive-starts :
      (device : List ℕ) (i : ℕ) (path : List ℕ)
      → begins_with_backslash
          (on_drive (convert_device_path_to_dos_drive query_dos_device device) i path)
        ≡ false
  unfolding on_drive convert_device_path_to_dos_drive
  on_drive-starts device i path =
      first_drive-starts query_dos_device 26 b'A' device (drop i path) (omega arith)

  -- Where GetLongPathName gives no path with a backslash first for one that has none first, a converted
  -- path is left as it is
  -- when it is converted again, as insertProcess and onProcessEvent do.
  pub convert-convert :
      (path d : List ℕ)
      → ((p l : List ℕ)
          → begins_with_backslash p ≡ false
          → get_long_path_name p ≡ long_path l
          → begins_with_backslash l ≡ false)
      → conv path ≡ some d
      → conv d ≡ some d
  convert-convert path d long e = elim (Bool-cases (is_device_path path)) [
    | inr kept ↦
        let same : path ≡ d = ground (arith, e, convert-short path kept) in
        subst (λ (x : List ℕ). conv x ≡ some x) same (convert-short path kept)
    | inl device ↦ elim (Option-cases (path_offset path)) [
      | inl at ↦ absurd (ground (arith, e, convert-nowhere path device at))
      | inr at ↦
          let drive = convert_device_path_to_dos_drive query_dos_device (take at.0 path) in
          convert-plain d (
            lengthened-starts _ d _ (on_drive-starts (take at.0 path) at.0 path)
              (λ l h.
                long (on_drive drive at.0 path) l (on_drive-starts (take at.0 path) at.0 path) h)
              (rw (convert-at path at.0 device at.1) at e))
    ]
  ]

  -- A path of more than 23 characters with two backslashes, the first of which it begins with, throws.
  pub convert_throws :
      (a b : List ℕ)
      → Lacks backslash a
      → Lacks backslash b
      → 23 < length (device_of a b)
      → conv (device_of a b) ≡ none
  unfolding is_device_path
  convert_throws a b ha hb long =
      convert-nowhere (device_of a b) (lt→ltb 23 _ long) (path_offset-two a b ha hb)
