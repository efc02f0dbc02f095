-- ===== src/Messages/Runs.antt =====
-- A run of two actions that succeeds is a run of each.
use dawnchat_api.Prelude.{some, ◌≡◌, arith, inl, inr, Option-cases}
use dawnchat_api.Errors.{ok, err}
use dawnchat_api.Messages.World.{World, Action, ◌>>=◌}

module _ {C A B : Type 0} where
  pub >>=-runs :
      (m : Action C A) (f : A → Action C B) (w : World C) (b : B) (w' : World C)
      → (m >>= f) w ≡ some (ok b, w')
      → (a : A) × (w1 : World C) × (m w ≡ some (ok a, w1)) × (f a w1 ≡ some (ok b, w'))
  >>=-runs m f w b w' e = elim (Option-cases (m w)) [
    | inl stuck ↦ ground arith
    | inr ((err failed, w1), done) ↦ ground arith
    | inr ((ok a, w1), done) ↦ (a, w1, done, ground arith)
  ]
