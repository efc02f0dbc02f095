-- ===== src/Bits/Digits.antt =====
-- The native `&` and `|` stand for a recursion on binary digits with fuel. Here the fuel is
-- dropped: one equation for the lowest digit, for any digit operation.
use Prim.Native.Nat.{digits, bitwise, bit_and-bitwise, bit_or-bitwise}
use dawnchat_api.Prelude.{
  ℕ, zero, suc, ◌+◌, ◌*◌, ◌/◌, ◌%◌, ◌≤◌, min, max, bit_and, bit_or, ◌≡◌, refl, arith,
}

enough_fuel :
    (z : ℕ → ℕ) (f : ℕ → ℕ → ℕ) (k l a b : ℕ) → a ≤ k → a ≤ l → digits z f k a b ≡ digits z f l a b
enough_fuel z f zero zero zero b _ _ = refl
enough_fuel z f zero (suc l) zero b _ _ = refl
enough_fuel z f (suc k) zero zero b _ _ = refl
enough_fuel z f (suc k) (suc l) zero b _ _ = refl
enough_fuel z f zero l (suc a) b h _ = absurd (omega arith)
enough_fuel z f (suc k) zero (suc a) b _ h = absurd (omega arith)
enough_fuel z f (suc k) (suc l) (suc a) b h h' =
    rw (enough_fuel z f k l (suc a / 2) (b / 2) (omega arith) (omega arith))

lowest_digit :
    (base : ℕ → ℕ) (op : ℕ → ℕ → ℕ) (x y : ℕ)
    → bitwise base op (suc x) y ≡ bitwise base op (suc x / 2) (y / 2) * 2 + op (suc x % 2) (y % 2)
lowest_digit base op x y =
    omega (arith, enough_fuel base op x (suc x / 2) (suc x / 2) (y / 2) (omega arith) (omega arith))

pub bit_and-digit : (a b : ℕ) → bit_and a b ≡ bit_and (a / 2) (b / 2) * 2 + min (a % 2) (b % 2)
bit_and-digit zero b = simp bit_and-bitwise (omega arith)
bit_and-digit (suc a) b = simp bit_and-bitwise (lowest_digit (λ _. 0) min a b)

pub bit_or-digit : (a b : ℕ) → bit_or a b ≡ bit_or (a / 2) (b / 2) * 2 + max (a % 2) (b % 2)
bit_or-digit zero b = simp bit_or-bitwise (omega arith)
bit_or-digit (suc a) b = simp bit_or-bitwise (lowest_digit (λ y. y) max a b)

pub zero-bit_and : (b : ℕ) → bit_and 0 b ≡ 0
zero-bit_and b = bit_and-bitwise 0 b
