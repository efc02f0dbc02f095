-- ===== src/DatabaseQuery/Order.antt =====
-- The order of a member's role overrides.
use dawnchat_api.Prelude.{
  ℕ, Bool, true, false, not, ◌&&◌, ◌||◌, Option, none, some, List, [], ◌∷◌, map, ◌≡◌, refl, ap, sym,
  ◌∙◌, inl, inr, arith, Bool-cases, Option-cases, if◌then◌else◌,
}
use dawnchat_api.Bits.{bit}
use dawnchat_api.Permissions.Sequence.{decision, last_decision, AllOverrides, bit-apply_all}
use dawnchat_api.Permissions.Value.{ℤ}
use dawnchat_api.Permissions.Bitwise.{IsU64, IsOverride}
use dawnchat_api.Permissions.Calculate.{apply_all}
use dawnchat_api.Models.{lt_i64}
use dawnchat_api.DatabaseQuery.Roles.{Ranked, insert_ranked, sort_ranked}

-- No role stands before one of a greater rank.
abbrev pub AllNotBelow : Ranked → List Ranked → Type 0
AllNotBelow x [] = Unit
AllNotBelow x (y ∷ ys) = (lt_i64 x.0 y.0 ≡ false) × AllNotBelow x ys

abbrev pub IsFalling : List Ranked → Type 0
IsFalling [] = Unit
IsFalling (x ∷ xs) = AllNotBelow x xs × IsFalling xs

lt_i64_asymm : (a b : ℤ) → lt_i64 a b ≡ true → lt_i64 b a ≡ false
lt_i64_asymm a b h = ground arith

not-lt_i64_trans : (a b c : ℤ) → lt_i64 a b ≡ false → lt_i64 b c ≡ false → lt_i64 a c ≡ false
not-lt_i64_trans a b c h k = ground arith

AllNotBelow-insert :
    (x y : Ranked) (ys : List Ranked)
    → lt_i64 y.0 x.0 ≡ false
    → AllNotBelow y ys
    → AllNotBelow y (insert_ranked x ys)
unfolding insert_ranked
AllNotBelow-insert x y [] h k = (h, tt)
AllNotBelow-insert x y (z ∷ zs) h k = ground (arith, AllNotBelow-insert x y zs h k.1)

AllNotBelow-trans :
    (x y : Ranked) (ys : List Ranked) → lt_i64 x.0 y.0 ≡ false → AllNotBelow y ys → AllNotBelow x ys
AllNotBelow-trans x y [] h k = tt
AllNotBelow-trans x y (z ∷ zs) h k =
    (not-lt_i64_trans x.0 y.0 z.0 h k.0, AllNotBelow-trans x y zs h k.1)

insert-IsFalling : (x : Ranked) (ys : List Ranked) → IsFalling ys → IsFalling (insert_ranked x ys)
unfolding insert_ranked
insert-IsFalling x [] h = (tt, tt)
insert-IsFalling x (y ∷ ys) h = elim (Bool-cases (lt_i64 x.0 y.0)) [
  | inl below ↦
      rw below
        (AllNotBelow-insert x y ys (lt_i64_asymm x.0 y.0 below) h.0, insert-IsFalling x ys h.1)
  | inr above ↦ rw above ((above, AllNotBelow-trans x y ys above h.0), h)
]

sort-IsFalling : (xs : List Ranked) → IsFalling (sort_ranked xs)
unfolding sort_ranked
sort-IsFalling [] = tt
sort-IsFalling (x ∷ xs) = insert-IsFalling x (sort_ranked xs) (sort-IsFalling xs)

-- Whether the override of the role says something of the i-th permission.
abbrev pub is_said : Ranked → ℕ → Bool
is_said x i = bit x.1.allow i || bit x.1.deny i

-- The highest role that says something of the i-th permission: the one of the least rank, and of two
-- of one rank the later one. A plain search, without an order of the list.
abbrev pub highest : List Ranked → ℕ → Option Ranked
highest [] i = none
highest (x ∷ xs) i = elim (highest xs i) [
  | none ↦ if is_said x i then some x else none
  | some y ↦ if is_said x i && lt_i64 x.0 y.0 then some x else some y
]

-- What the highest role says, a denial beating an allowance, or else the value before.
abbrev pub as_highest : Option Ranked → ℕ → Bool → Bool
as_highest none i b = b
as_highest (some x) i b = not (bit x.1.deny i)

-- The last role of the list that says something.
abbrev last_said : List Ranked → ℕ → Option Ranked
last_said [] i = none
last_said (x ∷ xs) i = elim (last_said xs i) [
  | none ↦ if is_said x i then some x else none
  | some y ↦ some y
]

last_said-AllNotBelow :
    (x y : Ranked) (ys : List Ranked) (i : ℕ)
    → AllNotBelow x ys
    → last_said ys i ≡ some y
    → lt_i64 x.0 y.0 ≡ false
last_said-AllNotBelow x y [] i h e = ground arith
last_said-AllNotBelow x y (z ∷ zs) i h e = elim (Option-cases (last_said zs i)) [
  | inl nothing ↦ elim (Bool-cases (is_said z i)) [
    | inl said ↦ let same : z ≡ y = ground arith in ap (λ v. lt_i64 x.0 v.0) (sym same) ∙ h.0
    | inr silent ↦ ground arith
  ]
  | inr (w, found) ↦ last_said-AllNotBelow x y zs i h.1 (ground arith)
]

last_said-insert :
    (x : Ranked) (ys : List Ranked) (i : ℕ)
    → IsFalling ys
    → last_said (insert_ranked x ys) i ≡ (elim (last_said ys i) [
      | none ↦ if is_said x i then some x else none
      | some y ↦ if is_said x i && lt_i64 x.0 y.0 then some x else some y
    ])
unfolding insert_ranked
last_said-insert x [] i h = refl
last_said-insert x (y ∷ ys) i h = elim (Bool-cases (lt_i64 x.0 y.0)) [
  | inl below ↦ ground (arith, last_said-insert x ys i h.1)
  | inr above ↦ elim (Option-cases (last_said (y ∷ ys) i)) [
    | inl nothing ↦ ground arith
    | inr (z, found) ↦
        let all : AllNotBelow x (y ∷ ys) = (above, AllNotBelow-trans x y ys above h.0) in
        ground (arith, last_said-AllNotBelow x z (y ∷ ys) i all found)
  ]
]

last_said-sort : (xs : List Ranked) (i : ℕ) → last_said (sort_ranked xs) i ≡ highest xs i
unfolding sort_ranked
last_said-sort [] i = refl
last_said-sort (x ∷ xs) i =
    last_said-insert x (sort_ranked xs) i (sort-IsFalling xs) ∙ rw (last_said-sort xs i) refl

last_decision-last_said :
    (xs : List Ranked) (i : ℕ) (b : Bool)
    → last_decision (map (λ r. r.1) xs) i b ≡ as_highest (last_said xs i) i b
last_decision-last_said [] i b = refl
last_decision-last_said (x ∷ xs) i b =
    ground (arith, last_decision-last_said xs i (elim (decision x.1 i) [ none ↦ b | some c ↦ c ]))

insert-AllOverrides :
    (x : Ranked) (ys : List Ranked)
    → IsOverride x.1
    → AllOverrides (map (λ r. r.1) ys)
    → AllOverrides (map (λ r. r.1) (insert_ranked x ys))
unfolding insert_ranked
insert-AllOverrides x [] h k = (h, tt)
insert-AllOverrides x (y ∷ ys) h k = elim (Bool-cases (lt_i64 x.0 y.0)) [
  | inl below ↦ rw below (k.0, insert-AllOverrides x ys h k.1)
  | inr above ↦ rw above (h, k)
]

sort-AllOverrides :
    (xs : List Ranked)
    → AllOverrides (map (λ r. r.1) xs)
    → AllOverrides (map (λ r. r.1) (sort_ranked xs))
unfolding sort_ranked
sort-AllOverrides [] h = tt
sort-AllOverrides (x ∷ xs) h = insert-AllOverrides x (sort_ranked xs) h.0 (sort-AllOverrides xs h.1)

-- The overrides of roles, sorted and applied: the highest role that says something decides.
pub bit-apply-sorted :
    (xs : List Ranked) (p i : ℕ)
    → IsU64 p
    → AllOverrides (map (λ r. r.1) xs)
    → bit (apply_all p (map (λ r. r.1) (sort_ranked xs))) i ≡ as_highest (highest xs i) i (bit p i)
bit-apply-sorted xs p i h k =
    bit-apply_all (map (λ r. r.1) (sort_ranked xs)) i p h (sort-AllOverrides xs k)
    ∙ last_decision-last_said (sort_ranked xs) i (bit p i)
    ∙ ap (λ o. as_highest o i (bit p i)) (last_said-sort xs i)
