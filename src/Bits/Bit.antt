-- ===== src/Bits/Bit.antt =====
-- A word of w bits is a number below 2 ^ w; `bit x i` is its i-th bit.
use native.Mathlib.Nat.{pow-suc, one-le-pow}
use dawnchat_api.Prelude.{
  ℕ, zero, suc, ◌+◌, ◌-◌, ◌/◌, ◌%◌, ◌^◌, ◌≤◌, ◌<◌, bit_and, bit_or, ◌≡◌, refl, Bool, false, not,
  ◌&&◌, ◌||◌, ◌==◌, nat_eq, arith,
}
use dawnchat_api.Bits.Digits.{bit_and-digit, bit_or-digit, zero-bit_and}

unfoldable pub bit : ℕ → ℕ → Bool
bit x zero = x % 2 == 1
bit x (suc i) = bit (x / 2) i

-- `!x` on a word of w bits.
unfoldable pub complement : ℕ → ℕ → ℕ
complement w x = 2 ^ w - 1 - x

bit_and-half : (a b : ℕ) → bit_and a b / 2 ≡ bit_and (a / 2) (b / 2)
bit_and-half a b = omega (arith, bit_and-digit a b)

bit_or-half : (a b : ℕ) → bit_or a b / 2 ≡ bit_or (a / 2) (b / 2)
bit_or-half a b = omega (arith, bit_or-digit a b)

pub bit-and : (i a b : ℕ) → bit (bit_and a b) i ≡ (bit a i && bit b i)
unfolding bit
bit-and zero a b = ground (arith, bit_and-digit a b)
bit-and (suc i) a b = rw (bit_and-half a b) (bit-and i (a / 2) (b / 2))

pub bit-or : (i a b : ℕ) → bit (bit_or a b) i ≡ (bit a i || bit b i)
unfolding bit
bit-or zero a b = ground (arith, bit_or-digit a b)
bit-or (suc i) a b = rw (bit_or-half a b) (bit-or i (a / 2) (b / 2))

pub bit-zero : (i : ℕ) → bit 0 i ≡ false
unfolding bit
bit-zero zero = refl
bit-zero (suc i) = bit-zero i

pub bit-complement : (w i x : ℕ) → x < 2 ^ w → i < w → bit (complement w x) i ≡ not (bit x i)
unfolding bit complement
bit-complement zero i x h k = absurd (omega arith)
bit-complement (suc w) zero x h k = ground (arith, pow-suc 2 w, one-le-pow w 2)
bit-complement (suc w) (suc i) x h k =
    let half : (2 ^ suc w - 1 - x) / 2 ≡ 2 ^ w - 1 - x / 2 = omega (arith, pow-suc 2 w) in
    rw half (bit-complement w i (x / 2) (omega (arith, pow-suc 2 w)) (omega arith))

-- A word has no bit at or above its width.
pub bit_above : (w i x : ℕ) → x < 2 ^ w → w ≤ i → bit x i ≡ false
unfolding bit
bit_above zero i x h k = let e : x ≡ 0 = omega arith in rw e (bit-zero i)
bit_above (suc w) zero x h k = absurd (omega arith)
bit_above (suc w) (suc i) x h k = bit_above w i (x / 2) (omega (arith, pow-suc 2 w)) (omega arith)

same_parity : (a b : ℕ) → (a % 2 == 1) ≡ (b % 2 == 1) → a % 2 ≡ b % 2
same_parity a b h = ground arith

eq_of_bits_within : (k a b : ℕ) → a ≤ k → b ≤ k → ((i : ℕ) → bit a i ≡ bit b i) → a ≡ b
unfolding bit
eq_of_bits_within zero a b h h' e = omega arith
eq_of_bits_within (suc k) a b h h' e = omega (
  arith,
  same_parity a b (e 0),
  eq_of_bits_within k (a / 2) (b / 2) (omega arith) (omega arith) (λ i. e (suc i)),
)

-- Words with the same bits are equal.
pub eq_of_bits : (a b : ℕ) → ((i : ℕ) → bit a i ≡ bit b i) → a ≡ b
eq_of_bits a b e = eq_of_bits_within (a + b) a b (omega arith) (omega arith) e

pub bit_or-lt : (w a b : ℕ) → a < 2 ^ w → b < 2 ^ w → bit_or a b < 2 ^ w
bit_or-lt zero a b h h' =
    let za : a ≡ 0 = omega arith in let zb : b ≡ 0 = omega arith in rw (za, zb) (omega arith)
bit_or-lt (suc w) a b h h' = omega (
  arith,
  pow-suc 2 w,
  bit_or-digit a b,
  bit_or-lt w (a / 2) (b / 2) (omega (arith, pow-suc 2 w)) (omega (arith, pow-suc 2 w)),
)

pub bit_and-lt : (w a b : ℕ) → a < 2 ^ w → bit_and a b < 2 ^ w
bit_and-lt zero a b h = let za : a ≡ 0 = omega arith in rw (za, zero-bit_and b) (omega arith)
bit_and-lt (suc w) a b h = omega (
  arith,
  pow-suc 2 w,
  bit_and-digit a b,
  bit_and-lt w (a / 2) (b / 2) (omega (arith, pow-suc 2 w)),
)
