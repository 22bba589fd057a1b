-- ===== src/Client/Url.antt =====
-- Url.cpp: encode and decode, which carry a URL through an attribute of a message.
use Prim.Native.Nat.{bit_or}
use hsn_capture_hpc_ng.Base.{
  ℕ, ◌+◌, ◌-◌, ◌/◌, ◌%◌, ◌*◌, List, [], ◌∷◌, ◌++◌, Bool, true, false, ◌&&◌, ◌||◌, if◌then◌else◌,
  leb, ltb, ◌==◌,
}
pub mod Bytes
pub mod RoundTrip
mod Tests

abbrev pub percent : ℕ
percent = 0x25

-- A digit of the table.
pub hex_digit : ℕ → ℕ
hex_digit d = if ltb d 10 then b'0' + d else b'a' + d - 10

-- The entry of a byte in the table hexenc.
pub hexenc : ℕ → List ℕ
unfolding hex_digit
hexenc b = percent ∷ hex_digit (b / 16) ∷ hex_digit (b % 16) ∷ []

-- 'A' to 'Z', 'a' to 'z', '0' to '9'.
pub is_alphanumeric : ℕ → Bool
is_alphanumeric c =
    (leb b'A' c && leb c b'Z') || (leb b'a' c && leb c b'z') || (leb b'0' c && leb c b'9')

-- The characters - _ . ! ~ * ' ( ) that stand for themselves.
pub is_mark : ℕ → Bool
is_mark c =
    c == b'-'
    || c == b'_'
    || c == b'.'
    || c == b'!'
    || c == b'~'
    || c == b'*'
    || c == 0x27
    || c == b'('
    || c == b')'

-- The body of the loop of encode; `wch & 0x3F` is `% 64`.
pub encode_character : ℕ → List ℕ
unfolding is_alphanumeric is_mark hexenc
encode_character c =
    if is_alphanumeric c
    then c ∷ []
    else (if c == 0x20
        then b'+' ∷ []
        else (if is_mark c
            then c ∷ []
            else (if leb c 0x7F
                then hexenc c
                else (if leb c 0x7FF
                    then hexenc (bit_or 0xC0 (c / 64)) ++ hexenc (bit_or 0x80 (c % 64))
                    else hexenc (bit_or 0xE0 (c / 4096))
                      ++ (hexenc (bit_or 0x80 (c / 64 % 64)) ++ hexenc (bit_or 0x80 (c % 64)))))))

-- Url::encode.
pub encode : List ℕ → List ℕ
unfolding encode_character
encode [] = []
encode (c ∷ cs) = encode_character c ++ encode cs

-- What a byte leaves: the characters that it completes, `sequence`, an int as its 32 bits, and
-- `conwch`.
pub record Decoding : Type 0 where
  pub emitted : List ℕ
  pub sequence : ℕ
  pub conwch : ℕ

-- A byte 10xxxxxx, which has the next six bits.
continued : ℕ → ℕ → ℕ → Decoding
continued sequence conwch bits =
    let fewer : ℕ = (sequence + 0xFFFFFFFF) % 0x100000000 in
    let joined : ℕ = bit_or conwch (if sequence == 2 then bits * 64 else bits) in
    record { emitted = if fewer == 0 then joined ∷ [] else []; sequence = fewer; conwch = joined }

-- The tests on the byte that two digits stand for.
pub decode_byte : ℕ → ℕ → ℕ → Decoding
unfolding continued
decode_byte sequence conwch byte =
    if leb byte 0x7F
    then record { emitted = byte ∷ []; sequence = sequence; conwch = conwch }
    else (if leb byte 0xBF
        then continued sequence conwch (byte % 64)
        else (if leb byte 0xDF
            then record { emitted = []; sequence = 1; conwch = byte % 32 * 64 }
            else (if leb byte 0xEF
                then record { emitted = []; sequence = 2; conwch = byte % 16 * 4096 }
                else record { emitted = []; sequence = sequence; conwch = conwch })))

-- wcstol of the C library, at base 16.
module _ (wcstol : List ℕ → ℕ) where
  -- The loop of Url::decode. A percent sign counts where two characters follow.
  pub decode_from : ℕ → ℕ → List ℕ → List ℕ
  unfolding decode_byte
  decode_from sequence conwch [] = []
  decode_from sequence conwch (c ∷ []) = c ∷ []
  decode_from sequence conwch (c ∷ x ∷ []) = c ∷ decode_from sequence conwch (x ∷ [])
  decode_from sequence conwch (c ∷ x ∷ y ∷ rest) = elim (c == percent) [
    | true ↦
        let d : Decoding = decode_byte sequence conwch (wcstol (b'0' ∷ b'x' ∷ x ∷ y ∷ [])) in
        d.emitted ++ decode_from d.sequence d.conwch rest
    | false ↦ c ∷ decode_from sequence conwch (x ∷ y ∷ rest)
  ]

  -- Url::decode.
  pub decode : List ℕ → List ℕ
  unfolding decode_from
  decode text = decode_from 0 0 text
