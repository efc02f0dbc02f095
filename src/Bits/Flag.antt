-- ===== src/Bits/Flag.antt =====
-- A flag: the word with one bit.
use native.Mathlib.Nat.{pow-suc}
use dawnchat_api.Prelude.{ℕ, zero, suc, ◌/◌, ◌^◌, ◌≡◌, refl, ◌∙◌, ◌==◌, nat_eq, arith}
use dawnchat_api.Bits.Bit.{bit, bit-zero}

pub bit-one : (i : ℕ) → bit 1 i ≡ (i == 0)
unfolding bit
bit-one zero = refl
bit-one (suc i) = ground (arith, bit-zero i)

-- The bits of a flag are all clear but one.
pub bit-pow : (k i : ℕ) → bit (2 ^ k) i ≡ (i == k)
unfolding bit
bit-pow zero i = bit-one i
bit-pow (suc k) zero = ground (arith, pow-suc 2 k)
bit-pow (suc k) (suc i) =
    let half : 2 ^ suc k / 2 ≡ 2 ^ k = omega (arith, pow-suc 2 k) in
    rw half (bit-pow k i ∙ ground arith)
