-- ===== src/Client/Url/Bytes.antt =====
-- What Url::decode (Url.cpp) makes of each kind of byte.
use hsn_capture_hpc_ng.Base.{
  ℕ, ◌+◌, ◌%◌, ◌*◌, ◌<◌, ◌≤◌, [], ◌∷◌, ◌≡◌, refl, arith, bit_or_sixty_four, bit_or_shifted,
  not-le→leb, le→leb,
}
use hsn_capture_hpc_ng.Client.Url.{decode_byte}

pub decode_byte_ascii :
    (s w b : ℕ)
    → b ≤ 0x7F
    → decode_byte s w b ≡ record { emitted = b ∷ []; sequence = s; conwch = w }
unfolding decode_byte
decode_byte_ascii s w b h = rw (le→leb b 0x7F h) refl

pub decode_byte_two :
    (s w x : ℕ)
    → x < 32
    → decode_byte s w (0xC0 + x) ≡ record { emitted = []; sequence = 1; conwch = x * 64 }
unfolding decode_byte
decode_byte_two s w x h =
    let mask : (0xC0 + x) % 32 ≡ x = omega arith in
    rw
      (
        not-le→leb (0xC0 + x) 0x7F (omega arith),
        not-le→leb (0xC0 + x) 0xBF (omega arith),
        le→leb (0xC0 + x) 0xDF (omega arith),
        mask,
      )
      refl

pub decode_byte_three :
    (s w x : ℕ)
    → x < 16
    → decode_byte s w (0xE0 + x) ≡ record { emitted = []; sequence = 2; conwch = x * 4096 }
unfolding decode_byte
decode_byte_three s w x h =
    let mask : (0xE0 + x) % 16 ≡ x = omega arith in
    rw
      (
        not-le→leb (0xE0 + x) 0x7F (omega arith),
        not-le→leb (0xE0 + x) 0xBF (omega arith),
        not-le→leb (0xE0 + x) 0xDF (omega arith),
        le→leb (0xE0 + x) 0xEF (omega arith),
        mask,
      )
      refl

-- The second of three bytes.
pub decode_byte_middle :
    (q x : ℕ)
    → x < 64
    → decode_byte 2 (q * 4096) (0x80 + x)
      ≡ record { emitted = []; sequence = 1; conwch = (q * 64 + x) * 64 }
unfolding decode_byte
decode_byte_middle q x h =
    let mask : (0x80 + x) % 64 ≡ x = omega arith in
    rw
      (
        not-le→leb (0x80 + x) 0x7F (omega arith),
        le→leb (0x80 + x) 0xBF (omega arith),
        mask,
        bit_or_shifted q x h,
      )
      refl

-- The last byte of a sequence.
pub decode_byte_last :
    (q x : ℕ)
    → x < 64
    → decode_byte 1 (q * 64) (0x80 + x)
      ≡ record { emitted = (q * 64 + x) ∷ []; sequence = 0; conwch = q * 64 + x }
unfolding decode_byte
decode_byte_last q x h =
    let mask : (0x80 + x) % 64 ≡ x = omega arith in
    rw
      (
        not-le→leb (0x80 + x) 0x7F (omega arith),
        le→leb (0x80 + x) 0xBF (omega arith),
        mask,
        bit_or_sixty_four q x h,
      )
      refl
