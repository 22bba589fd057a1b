-- ===== src/Registry/Callback/Contents.antt =====
-- What the driver writes into an event, and what RegistryMonitor::run in Client/RegistryMonitor.cpp
-- reads out of it.
use hsn_capture_hpc_ng.Base.{
  ℕ, ◌+◌, ◌*◌, ◌/◌, ◌%◌, ◌<◌, ◌≡◌, refl, sym, List, [], ◌∷◌, ◌++◌, arith, if◌then◌else◌, ◌==◌,
  length, take, drop, take-append, drop-append, take_all, append_assoc, cons_eq, Bool-cases, inl,
  inr,
}
use hsn_capture_hpc_ng.Registry.{NotifyClass, RegistryEvent}
use hsn_capture_hpc_ng.Registry.Callback.{Captured, make_event, wide_bytes}

-- std::wstring(szRegistryPath): the characters up to a terminator.
pub wide_string : List ℕ → List ℕ
wide_string [] = []
wide_string (low ∷ []) = []
wide_string (low ∷ high ∷ bs) =
    let rest : List ℕ = wide_string bs in
    let c : ℕ = low + 256 * high in if c == 0 then [] else c ∷ rest

-- The path and the data of an event, as the monitor copies them.
pub read_path : RegistryEvent → List ℕ
unfolding wide_string
read_path e = wide_string (take e.path_length e.registry_data)

pub read_data : RegistryEvent → List ℕ
read_data e = take e.data_length (drop e.path_length e.registry_data)

-- Characters of 16 bits that are not zero.
abbrev pub AreCharacters : List ℕ → Type 0
AreCharacters [] = Unit {0}
AreCharacters (c ∷ cs) = (0 < c) × (c < 0x10000) × AreCharacters cs

wide_string-wide_bytes :
    (cs : List ℕ) → AreCharacters cs → wide_string (wide_bytes cs ++ 0 ∷ 0 ∷ []) ≡ cs
unfolding wide_string wide_bytes
wide_string-wide_bytes [] h = refl
wide_string-wide_bytes (c ∷ cs) h =
    let same : c % 256 + 256 * (c / 256) ≡ c = omega arith in
    elim (Bool-cases (c % 256 + 256 * (c / 256) == 0)) [
      | inl e ↦ absurd (ground (arith, e, same, h.0))
      | inr e ↦ rw e (cons_eq same (wide_string-wide_bytes cs h.2))
    ]

length-wide_path : (cs : List ℕ) → length (wide_bytes cs ++ 0 ∷ 0 ∷ []) ≡ 2 * length cs + 2
unfolding wide_bytes
length-wide_path [] = refl
length-wide_path (c ∷ cs) = omega (arith, length-wide_path cs)

-- Where the path has characters of 16 bits that are not zero, and the bytes of the data are as many
-- as its length says, the monitor reads out of an event the path and the data that the driver wrote.
pub read-make_event :
    (event : NotifyClass) (time process : ℕ) (c : Captured)
    → AreCharacters c.path.characters
    → length c.bytes ≡ c.data_length
    → let e = make_event event time process c in
      (read_path e ≡ c.path.characters) × (read_data e ≡ c.bytes)
unfolding read_path read_data make_event
read-make_event event time process c h filled =
    let cs : List ℕ = c.path.characters in
    let front : List ℕ = wide_bytes cs ++ 0 ∷ 0 ∷ [] in
    let size : 2 * length cs + 2 ≡ length front = sym (length-wide_path cs) in
    let whole : wide_bytes cs ++ 0 ∷ 0 ∷ c.bytes ≡ front ++ c.bytes =
      sym (append_assoc (wide_bytes cs) (0 ∷ 0 ∷ []) c.bytes) in
    (
      rw (whole, size, take-append front c.bytes) (wide_string-wide_bytes cs h),
      rw (whole, size, drop-append front c.bytes)
          (take_all c.data_length c.bytes (omega (arith, filled))),
    )
