-- ===== src/Base/Bits.antt =====
-- The or of a number whose low digits are 0 with one that has no others is their sum.
use Prim.Native.Nat.{ℕ, zero, suc, ◌+◌, ◌*◌, ◌/◌, ◌≤◌, ◌<◌, max, bit_or, digits, bit_or-bitwise}
use mathlib.Core.Path.{◌≡◌, refl}
use native.Mathlib.Omega.{arith}

abbrev or_digits : ℕ → ℕ → ℕ → ℕ
or_digits n a b = digits (λ y. y) max n a b

or_digits-zero : (n a : ℕ) → a ≤ n → or_digits n a 0 ≡ a + 0
or_digits-zero zero a h = omega arith
or_digits-zero (suc n) zero h = refl
or_digits-zero (suc n) (suc a) h = omega (arith, or_digits-zero n (suc a / 2) (omega arith))

-- One digit more: what holds of the halves holds of the numbers.
or_digits_double :
    (n a x b : ℕ)
    → a ≡ 2 * x
    → a ≤ n
    → ((m : ℕ) → x ≤ m → or_digits m x (b / 2) ≡ x + b / 2)
    → or_digits n a b ≡ a + b
or_digits_double zero a x b e h ih = omega arith
or_digits_double (suc n) zero x b e h ih = omega arith
or_digits_double (suc n) (suc a) x b e h ih =
    let half : suc a / 2 ≡ x = omega arith in rw half (omega (arith, half, ih n (omega arith)))

or_digits_sixteen : (a b m : ℕ) → b < 16 → a * 16 ≤ m → or_digits m (a * 16) b ≡ a * 16 + b
or_digits_sixteen a b m h l = or_digits_double m (a * 16) (a * 8) b (omega arith) l λ m1 l1.
    or_digits_double m1 (a * 8) (a * 4) (b / 2) (omega arith) l1 λ m2 l2.
      or_digits_double m2 (a * 4) (a * 2) (b / 2 / 2) (omega arith) l2 λ m3 l3.
        or_digits_double m3 (a * 2) a (b / 2 / 2 / 2) (omega arith) l3 λ m4 l4.
          let gone : b / 2 / 2 / 2 / 2 ≡ 0 = omega arith in rw gone (or_digits-zero m4 a l4)

or_digits_sixty_four : (a b m : ℕ) → b < 64 → a * 64 ≤ m → or_digits m (a * 64) b ≡ a * 64 + b
or_digits_sixty_four a b m h l = or_digits_double m (a * 64) (a * 32) b (omega arith) l λ m1 l1.
    or_digits_double m1 (a * 32) (a * 16) (b / 2) (omega arith) l1
      λ m2 l2. or_digits_sixteen a (b / 2 / 2) m2 (omega arith) l2

pub bit_or_sixteen : (a b : ℕ) → b < 16 → bit_or (a * 16) b ≡ a * 16 + b
bit_or_sixteen a b h =
    omega (arith, bit_or-bitwise (a * 16) b, or_digits_sixteen a b (a * 16) h (omega arith))

pub bit_or_sixty_four : (a b : ℕ) → b < 64 → bit_or (a * 64) b ≡ a * 64 + b
bit_or_sixty_four a b h =
    omega (arith, bit_or-bitwise (a * 64) b, or_digits_sixty_four a b (a * 64) h (omega arith))

-- Both numbers six digits up.
or_digits_shifted :
    (a b m : ℕ) → b < 64 → a * 4096 ≤ m → or_digits m (a * 4096) (b * 64) ≡ a * 4096 + b * 64
or_digits_shifted a b m h l =
    or_digits_double m (a * 4096) (a * 2048) (b * 64) (omega arith) l λ m1 l1.
      or_digits_double m1 (a * 2048) (a * 1024) (b * 64 / 2) (omega arith) l1 λ m2 l2.
        or_digits_double m2 (a * 1024) (a * 512) (b * 64 / 2 / 2) (omega arith) l2 λ m3 l3.
          or_digits_double m3 (a * 512) (a * 256) (b * 64 / 2 / 2 / 2) (omega arith) l3 λ m4 l4.
            or_digits_double m4 (a * 256) (a * 128) (b * 64 / 2 / 2 / 2 / 2) (omega arith) l4
              λ m5 l5.
                or_digits_double m5 (a * 128) (a * 64) (b * 64 / 2 / 2 / 2 / 2 / 2) (omega arith) l5
                  λ m6 l6.
                    let back : b * 64 / 2 / 2 / 2 / 2 / 2 / 2 ≡ b = omega arith in
                    rw back (or_digits_sixty_four a b m6 h l6)

pub bit_or_shifted : (a b : ℕ) → b < 64 → bit_or (a * 4096) (b * 64) ≡ (a * 64 + b) * 64
bit_or_shifted a b h =
    omega
      (arith, bit_or-bitwise (a * 4096) (b * 64), or_digits_shifted a b (a * 4096) h (omega arith))
