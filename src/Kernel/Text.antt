-- ===== src/Kernel/Text.antt =====
-- UNICODE_STRING and the safe string functions of ntstrsafe.h, over 16-bit characters. Lengths in
-- bytes are twice the number of characters; what does not fit is cut off.
use hsn_capture_hpc_ng.Base.{
  ℕ, ◌+◌, ◌-◌, ◌*◌, ◌/◌, ◌≤◌, ◌≡◌, List, ◌++◌, arith, ap, length, take, length-append, length-take,
  take_all, ◌+◌,
}

pub record UnicodeString : Type 0 where
  pub characters : List ℕ
  pub maximum_length : ℕ

abbrev pub byte_length : UnicodeString → ℕ
byte_length s = 2 * length s.characters

-- RtlUnicodeStringCopy.
pub unicode_string_copy : UnicodeString → List ℕ → UnicodeString
unicode_string_copy s cs = record s { characters = take (s.maximum_length / 2) cs }

-- RtlUnicodeStringCat and RtlUnicodeStringCatString.
pub unicode_string_cat : UnicodeString → List ℕ → UnicodeString
unicode_string_cat s cs = record s {
  characters = s.characters ++ take (s.maximum_length / 2 - length s.characters) cs;
}

-- The string stays within its buffer.
abbrev pub IsBounded : UnicodeString → Type 0
IsBounded s = byte_length s ≤ s.maximum_length

pub unicode_string_copy-IsBounded :
    (s : UnicodeString) (cs : List ℕ) → IsBounded (unicode_string_copy s cs)
unfolding unicode_string_copy
unicode_string_copy-IsBounded s cs = omega (arith, length-take (s.maximum_length / 2) cs)

pub unicode_string_cat-IsBounded :
    (s : UnicodeString) (cs : List ℕ) → IsBounded s → IsBounded (unicode_string_cat s cs)
unfolding unicode_string_cat
unicode_string_cat-IsBounded s cs h = omega (
  arith,
  length-append s.characters (take (s.maximum_length / 2 - length s.characters) cs),
  length-take (s.maximum_length / 2 - length s.characters) cs,
)

pub maximum_length-copy :
    (s : UnicodeString) (cs : List ℕ) → (unicode_string_copy s cs).maximum_length ≡ s.maximum_length
unfolding unicode_string_copy
maximum_length-copy s cs = omega arith

pub maximum_length-cat :
    (s : UnicodeString) (cs : List ℕ) → (unicode_string_cat s cs).maximum_length ≡ s.maximum_length
unfolding unicode_string_cat
maximum_length-cat s cs = omega arith

-- What fits is appended whole.
pub unicode_string_cat_fits :
    (s : UnicodeString) (cs : List ℕ)
    → byte_length s + 2 * length cs ≤ s.maximum_length
    → (unicode_string_cat s cs).characters ≡ s.characters ++ cs
unfolding unicode_string_cat
unicode_string_cat_fits s cs h =
    ap (◌++◌ s.characters) (take_all (s.maximum_length / 2 - length s.characters) cs (omega arith))

pub unicode_string_copy_fits :
    (s : UnicodeString) (cs : List ℕ)
    → 2 * length cs ≤ s.maximum_length
    → (unicode_string_copy s cs).characters ≡ cs
unfolding unicode_string_copy
unicode_string_copy_fits s cs h = take_all (s.maximum_length / 2) cs (omega arith)

pub length-copy :
    (s : UnicodeString) (cs : List ℕ)
    → length (unicode_string_copy s cs).characters ≤ s.maximum_length / 2
unfolding unicode_string_copy
length-copy s cs = length-take (s.maximum_length / 2) cs
