-- ===== src/Client/Url/Tests.antt =====
-- Runs of Url.cpp's functions, with a wcstol that reads the two digits behind 0x.
use hsn_capture_hpc_ng.Base.{
  ℕ, ◌+◌, ◌-◌, ◌*◌, ◌/◌, ◌%◌, ◌<◌, List, [], ◌∷◌, ◌≡◌, refl, arith, if◌then◌else◌, ltb, map,
}
use hsn_capture_hpc_ng.Client.Url.{hex_digit, hexenc, encode_character, encode, decode_from, decode}
use hsn_capture_hpc_ng.Client.Url.RoundTrip.{space_as_plus, decode-encode}

digit_value : ℕ → ℕ
digit_value x = if ltb x b'a' then x - b'0' else x - b'a' + 10

wcstol : List ℕ → ℕ
wcstol (p ∷ q ∷ x ∷ y ∷ rest) = digit_value x * 16 + digit_value y
wcstol text = 0

digit_value-hex_digit : (d : ℕ) → d < 16 → digit_value (hex_digit d) ≡ d
unfolding digit_value hex_digit
digit_value-hex_digit d h = ground arith

wcstol-hex_digit :
    (b : ℕ) → b < 256 → wcstol (b'0' ∷ b'x' ∷ hex_digit (b / 16) ∷ hex_digit (b % 16) ∷ []) ≡ b
unfolding wcstol
wcstol-hex_digit b h = omega (
  arith,
  digit_value-hex_digit (b / 16) (omega arith),
  digit_value-hex_digit (b % 16) (omega arith),
)

-- "a &" and two characters of two and of three bytes.
abbrev sample : List ℕ
sample = b'a' ∷ 0x20 ∷ b'&' ∷ 0xE9 ∷ 0x20AC ∷ []

encoded_sample :
    encode (b'a' ∷ 0x20 ∷ b'&' ∷ 0xE9 ∷ [])
    ≡ b'a' ∷ b'+' ∷ b'%' ∷ b'2' ∷ b'6' ∷ b'%' ∷ b'c' ∷ b'3' ∷ b'%' ∷ b'a' ∷ b'9' ∷ []
unfolding encode encode_character hexenc hex_digit
encoded_sample = refl

-- Two characters must follow a percent sign.
decoded_short : decode wcstol (b'%' ∷ b'4' ∷ []) ≡ b'%' ∷ b'4' ∷ []
unfolding decode decode_from
decoded_short = refl

decode-encode_example : decode wcstol (encode sample) ≡ map space_as_plus sample
decode-encode_example =
    decode-encode wcstol wcstol-hex_digit sample
      (omega arith, (omega arith, (omega arith, (omega arith, (omega arith, tt)))))
