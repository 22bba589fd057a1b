-- ===== src/Client/Url/RoundTrip.antt =====
-- What Url::decode makes of what Url::encode wrote.
use Prim.Native.Nat.{bit_or}
use hsn_capture_hpc_ng.Base.{
  ℕ, ◌+◌, ◌/◌, ◌%◌, ◌*◌, ◌<◌, ◌≤◌, List, [], ◌∷◌, ◌++◌, true, false, ◌≡◌, refl, ap, ◌∙◌,
  if◌then◌else◌, ◌==◌, arith, inl, inr, Bool-cases, append_assoc, map, bit_or_sixteen,
  bit_or_sixty_four, leb, leb→le, ◌⊎◌,
}
use hsn_capture_hpc_ng.Client.Url.{
  percent, hex_digit, hexenc, is_alphanumeric, is_mark, encode_character, encode, decode_byte,
  decode_from, decode,
}
use hsn_capture_hpc_ng.Client.Url.Bytes.{
  decode_byte_ascii, decode_byte_two, decode_byte_three, decode_byte_middle, decode_byte_last,
}

-- The only loss: a space is written as a plus sign, which is read as itself.
abbrev pub space_as_plus : ℕ → ℕ
space_as_plus c = if c == 0x20 then b'+' else c

-- Each character is one of 16 bits.
abbrev pub AreWide : List ℕ → Type 0
AreWide [] = Unit {0}
AreWide (c ∷ cs) = (c < 0x10000) × AreWide cs

-- What stands for itself is no percent sign, and no space either.
kept_percent : (c : ℕ) → (is_alphanumeric c ≡ true) ⊎ (is_mark c ≡ true) → (c == percent) ≡ false
unfolding is_alphanumeric is_mark
kept_percent c h = ground arith

kept_as_plus : (c : ℕ) → is_alphanumeric c ≡ true → space_as_plus c ≡ c
unfolding is_alphanumeric is_mark
kept_as_plus c h = ground arith

module _ (wcstol : List ℕ → ℕ)
    (reads : (b : ℕ)
      → b < 256
      → wcstol (b'0' ∷ b'x' ∷ hex_digit (b / 16) ∷ hex_digit (b % 16) ∷ []) ≡ b) where
  decode_plain :
      (sequence conwch c : ℕ) (rest : List ℕ)
      → (c == percent) ≡ false
      → decode_from wcstol sequence conwch (c ∷ rest) ≡ c ∷ decode_from wcstol sequence conwch rest
  unfolding decode_from
  decode_plain sequence conwch c [] e = refl
  decode_plain sequence conwch c (x ∷ []) e = refl
  decode_plain sequence conwch c (x ∷ y ∷ rest) e = rw (e, decode_from) refl

  decode-hexenc :
      (sequence conwch b : ℕ) (rest : List ℕ)
      → b < 256
      → decode_from wcstol sequence conwch (hexenc b ++ rest)
        ≡ (decode_byte sequence conwch b).emitted
          ++ decode_from wcstol
              (decode_byte sequence conwch b).sequence
              (decode_byte sequence conwch b).conwch
              rest
  unfolding decode_from hexenc
  decode-hexenc sequence conwch b rest h = rw (reads b h) refl

  -- A character of one, of two and of three bytes.
  decode_one :
      (s w c : ℕ) (rest : List ℕ)
      → c ≤ 0x7F
      → decode_from wcstol s w (hexenc c ++ rest) ≡ c ∷ decode_from wcstol s w rest
  decode_one s w c rest h =
      rw (decode-hexenc s w c rest (omega arith), decode_byte_ascii s w c h) refl

  decode_pair :
      (s w q x : ℕ) (rest : List ℕ)
      → q < 32
      → x < 64
      → decode_from wcstol s w (hexenc (0xC0 + q) ++ (hexenc (0x80 + x) ++ rest))
        ≡ (q * 64 + x) ∷ decode_from wcstol 0 (q * 64 + x) rest
  decode_pair s w q x rest h k =
      rw
        (
          decode-hexenc s w (0xC0 + q) (hexenc (0x80 + x) ++ rest) (omega arith),
          decode_byte_two s w q h,
          decode-hexenc 1 (q * 64) (0x80 + x) rest (omega arith),
          decode_byte_last q x k,
        )
        refl

  decode_triple :
      (s w q x y : ℕ) (rest : List ℕ)
      → q < 16
      → x < 64
      → y < 64
      → decode_from wcstol s w
          (hexenc (0xE0 + q) ++ (hexenc (0x80 + x) ++ (hexenc (0x80 + y) ++ rest)))
        ≡ ((q * 64 + x) * 64 + y) ∷ decode_from wcstol 0 ((q * 64 + x) * 64 + y) rest
  decode_triple s w q x y rest h k l =
      rw
        (
          decode-hexenc s w (0xE0 + q) (hexenc (0x80 + x) ++ (hexenc (0x80 + y) ++ rest))
              (omega arith),
          decode_byte_three s w q h,
          decode-hexenc 2 (q * 4096) (0x80 + x) (hexenc (0x80 + y) ++ rest) (omega arith),
          decode_byte_middle q x k,
          decode-hexenc 1 ((q * 64 + x) * 64) (0x80 + y) rest (omega arith),
          decode_byte_last (q * 64 + x) y l,
        )
        refl

  decode_two_bytes :
      (s w c : ℕ) (rest : List ℕ)
      → c ≤ 0x7FF
      → decode_from wcstol s w
          ((hexenc (bit_or 0xC0 (c / 64)) ++ hexenc (bit_or 0x80 (c % 64))) ++ rest)
        ≡ c ∷ decode_from wcstol 0 c rest
  decode_two_bytes s w c rest h =
      let lead : bit_or 0xC0 (c / 64) ≡ 0xC0 + c / 64 =
        bit_or_sixty_four 3 (c / 64) (omega arith) in
      let last : bit_or 0x80 (c % 64) ≡ 0x80 + c % 64 =
        bit_or_sixty_four 2 (c % 64) (omega arith) in
      let whole : c / 64 * 64 + c % 64 ≡ c = omega arith in
      rw
        (
          lead,
          last,
          append_assoc (hexenc (0xC0 + c / 64)) (hexenc (0x80 + c % 64)) rest,
          decode_pair s w (c / 64) (c % 64) rest (omega arith) (omega arith),
          whole,
        )
        refl

  decode_three_bytes :
      (s w c : ℕ) (rest : List ℕ)
      → c < 0x10000
      → decode_from wcstol s w (
          (hexenc (bit_or 0xE0 (c / 4096))
            ++ (hexenc (bit_or 0x80 (c / 64 % 64)) ++ hexenc (bit_or 0x80 (c % 64))))
          ++ rest)
        ≡ c ∷ decode_from wcstol 0 c rest
  decode_three_bytes s w c rest h =
      let lead : bit_or 0xE0 (c / 4096) ≡ 0xE0 + c / 4096 =
        bit_or_sixteen 14 (c / 4096) (omega arith) in
      let middle : bit_or 0x80 (c / 64 % 64) ≡ 0x80 + c / 64 % 64 =
        bit_or_sixty_four 2 (c / 64 % 64) (omega arith) in
      let last : bit_or 0x80 (c % 64) ≡ 0x80 + c % 64 =
        bit_or_sixty_four 2 (c % 64) (omega arith) in
      let whole : (c / 4096 * 64 + c / 64 % 64) * 64 + c % 64 ≡ c = omega arith in
      rw
        (
          lead,
          middle,
          last,
          append_assoc (hexenc (0xE0 + c / 4096))
              (hexenc (0x80 + c / 64 % 64) ++ hexenc (0x80 + c % 64)) rest,
          append_assoc (hexenc (0x80 + c / 64 % 64)) (hexenc (0x80 + c % 64)) rest,
          decode_triple s w (c / 4096) (c / 64 % 64) (c % 64) rest (omega arith) (omega arith)
              (omega arith),
          whole,
        )
        refl

  decode_character :
      (c : ℕ) (rest tail : List ℕ)
      → c < 0x10000
      → ((s w : ℕ) → decode_from wcstol s w rest ≡ tail)
      → (s w : ℕ) → decode_from wcstol s w (encode_character c ++ rest) ≡ space_as_plus c ∷ tail
  unfolding encode_character
  decode_character c rest tail h ih s w = elim (Bool-cases (is_alphanumeric c)) [
    | inl e ↦
        rw (e, kept_as_plus c e, decode_plain s w c rest (kept_percent c (inl e)), ih s w) refl
    | inr e ↦ elim (Bool-cases (c == 0x20)) [
      | inl f ↦ rw (e, f, decode_plain s w b'+' rest refl, ih s w) refl
      | inr f ↦ elim (Bool-cases (is_mark c)) [
        | inl g ↦ rw (e, f, g, decode_plain s w c rest (kept_percent c (inr g)), ih s w) refl
        | inr g ↦ elim (Bool-cases (leb c 0x7F)) [
          | inl k ↦ rw (e, f, g, k, decode_one s w c rest (leb→le c 0x7F k), ih s w) refl
          | inr k ↦ elim (Bool-cases (leb c 0x7FF)) [
            | inl l ↦
                rw (e, f, g, k, l)
                  (decode_two_bytes s w c rest (leb→le c 0x7FF l) ∙ ap (◌∷◌ c) (ih 0 c))
            | inr l ↦ rw (e, f, g, k, l) (decode_three_bytes s w c rest h ∙ ap (◌∷◌ c) (ih 0 c))
          ]
        ]
      ]
    ]
  ]

  decode_from-encode :
      (cs : List ℕ) (s w : ℕ)
      → AreWide cs
      → decode_from wcstol s w (encode cs) ≡ map space_as_plus cs
  unfolding encode decode_from
  decode_from-encode [] s w h = refl
  decode_from-encode (c ∷ cs) s w h =
      decode_character c (encode cs) (map space_as_plus cs) h.0
        (λ s1 w1. decode_from-encode cs s1 w1 h.1) s w

  -- Where the C library reads two digits of the table as their byte, decoding what was encoded
  -- gives back the characters of 16 bits, whatever they are, except that a space comes back as a
  -- plus sign.
  pub decode-encode : (cs : List ℕ) → AreWide cs → decode wcstol (encode cs) ≡ map space_as_plus cs
  unfolding decode
  decode-encode cs h = decode_from-encode cs 0 0 h
