-- ===== src/Permissions/Ensures.antt =====
-- What every result of an action satisfies, and the rules by which it is shown.
use dawnchat_api.Prelude.{
  Bool, true, false, some, ◌≡◌, refl, inl, inr, arith, Option-cases, if◌then◌else◌,
}
use dawnchat_api.Permissions.Query.{Action, pure, gets, ◌>>=◌}

module _ {S A : Type 0} (P : A → Type 0) where
  -- Whatever the action returns, and from whatever state, satisfies `P`.
  abbrev pub Ensures : Action S A → Type 0
  Ensures m = (s : S) (a : A) (s' : S) → m s ≡ some (a, s') → P a

  pub pure-Ensures : (a : A) → P a → Ensures (pure a)
  pure-Ensures a p s b s' e = ground arith

  pub >>=-Ensures :
      {B : Type 0} (m : Action S B) (f : B → Action S A)
      → ((b : B) → Ensures (f b))
      → Ensures (m >>= f)
  >>=-Ensures m f h s a s' e = elim (Option-cases (m s)) [
    | inl stuck ↦ ground arith
    | inr ((b, t), done) ↦ h b t a s' (ground arith)
  ]

  pub if-Ensures :
      (c : Bool) (m n : Action S A) → Ensures m → Ensures n → Ensures (if c then m else n)
  if-Ensures true m n h k = h
  if-Ensures false m n h k = k

-- The action returns, and does not panic, from whatever state.
abbrev pub IsTotal : {S A : Type 0} → Action S A → Type 0
IsTotal {S} {A} m = (s : S) → (a : A) × (s' : S) × (m s ≡ some (a, s'))

module _ {S A : Type 0} where
  pub >>=-returns :
      {B : Type 0} (m : Action S B) (f : B → Action S A) (s : S)
      → (b : B) × (s' : S) × (m s ≡ some (b, s'))
      → ((b : B) → IsTotal (f b))
      → (a : A) × (s' : S) × ((m >>= f) s ≡ some (a, s'))
  >>=-returns m f s (b, s', e) h = let (a, s'', e') = h b s' in (a, s'', ground arith)

  pub >>=-IsTotal :
      {B : Type 0} (m : Action S B) (f : B → Action S A)
      → IsTotal m
      → ((b : B) → IsTotal (f b))
      → IsTotal (m >>= f)
  >>=-IsTotal m f h k s = >>=-returns m f s (h s) k

  pub gets-IsTotal : (f : S → A) → IsTotal (gets f)
  gets-IsTotal f s = (f s, s, refl)

  pub if-IsTotal :
      (c : Bool) (m n : Action S A) → IsTotal m → IsTotal n → IsTotal (if c then m else n)
  if-IsTotal true m n h k = h
  if-IsTotal false m n h k = k
