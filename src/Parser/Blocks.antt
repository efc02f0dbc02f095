-- ===== src/Parser/Blocks.antt =====
-- Which tokens of a message count: escapes and code blocks.
use dawnchat_api.Prelude.{
  ℕ, zero, suc, ◌+◌, ◌≤◌, ◌<◌, none, some, List, [], ◌∷◌, ◌++◌, ◌≡◌, refl, inl, inr, ap, arith,
  nat_eq, Option-cases, Bool-cases,
}
use mathlib.Core.Option
use mathlib.Core.List.{append-nil}
use dawnchat_api.Parser.Tokens.{Token, is_marker, after_block, skip, drain, length}

-- The counted tokens of a message: an escape hides the token after it, a code block hides its
-- contents, and after a marker that nothing closes every token counts.
unfoldable pub counted_within : ℕ → List Token → List Token
unfolding after_block skip
counted_within zero ts = []
counted_within (suc n) [] = []
counted_within (suc n) (Token.escape ∷ ts) = Token.escape ∷ counted_within n (skip ts)
counted_within (suc n) (Token.codeblock_marker ty ∷ ts) = elim (after_block ty ts) [
  | some rest ↦ Token.codeblock_marker ty ∷ Token.codeblock_marker ty ∷ counted_within n rest
  | none ↦ Token.codeblock_marker ty ∷ ts
]
counted_within (suc n) (t ∷ ts) = t ∷ counted_within n ts

length-skip : (ts : List Token) → length (skip ts) ≤ length ts
unfolding skip
length-skip [] = omega arith
length-skip (t ∷ ts) = omega arith

pub length-after_block :
    (ty : ℕ) (ts rest : List Token) → after_block ty ts ≡ some rest → length rest < length ts
unfolding after_block
length-after_block ty [] rest h = cc
length-after_block ty (t ∷ ts) rest h = elim (Bool-cases (is_marker ty t)) [
  | inl found ↦ ground (arith, ap (λ o. Option.get_or (Option.map length o) 0) h)
  | inr other ↦ omega (arith, length-after_block ty ts rest (ground arith))
]

pub enough_fuel :
    (n m : ℕ) (ts : List Token)
    → length ts < n
    → length ts < m
    → counted_within n ts ≡ counted_within m ts
unfolding counted_within
enough_fuel zero m ts h k = absurd (omega arith)
enough_fuel (suc n) zero ts h k = absurd (omega arith)
enough_fuel (suc n) (suc m) [] h k = refl
enough_fuel (suc n) (suc m) (Token.escape ∷ ts) h k =
    ap (◌∷◌ Token.escape)
      (enough_fuel n m (skip ts) (omega (arith, length-skip ts)) (omega (arith, length-skip ts)))
enough_fuel (suc n) (suc m) (Token.codeblock_marker ty ∷ ts) h k =
    elim (Option-cases (after_block ty ts)) [
      | inl open_block ↦ ground arith
      | inr (rest, e) ↦
          let shorter = length-after_block ty ts rest e in
          ground (arith, enough_fuel n m rest (omega arith) (omega arith))
    ]
enough_fuel (suc n) (suc m) (t ∷ ts) h k =
    ap (◌∷◌ t) (enough_fuel n m ts (omega arith) (omega arith))

pub drain_counts :
    (f n : ℕ) (us ts : List Token)
    → length us + length ts < f
    → length ts < n
    → drain f (record { inner = ts; temp = us }) ≡ some (us ++ counted_within n ts)
unfolding drain counted_within
drain_counts zero n us ts h k = absurd (omega arith)
drain_counts (suc f) n (u ∷ us) ts h k = rw (drain_counts f n us ts (omega arith) k)
drain_counts (suc f) zero [] ts h k = absurd (omega arith)
drain_counts (suc f) (suc n) [] [] h k = refl
drain_counts (suc f) (suc n) [] (Token.escape ∷ ts) h k =
    rw (
      drain_counts f n [] (skip ts) (omega (arith, length-skip ts)) (omega (arith, length-skip ts)))
drain_counts (suc f) (suc n) [] (Token.codeblock_marker ty ∷ ts) h k =
    elim (Option-cases (after_block ty ts)) [
      | inl open_block ↦
          let whole : drain f (record { inner = []; temp = ts })
              ≡ some (ts ++ counted_within (suc n) []) =
            drain_counts f (suc n) ts [] (omega arith) (omega arith) in
          ground (arith, append-nil ts)
      | inr (rest, e) ↦
          let shorter = length-after_block ty ts rest e in
          ground (
            arith,
            drain_counts f n (Token.codeblock_marker ty ∷ []) rest (omega arith) (omega arith),
          )
    ]
drain_counts (suc f) (suc n) [] (t ∷ ts) h k =
    rw (drain_counts f n [] ts (omega arith) (omega arith))
