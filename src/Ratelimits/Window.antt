-- ===== src/Ratelimits/Window.antt =====
-- A run of requests with one key within one window.
use dawnchat_api.Prelude.{
  ℕ, suc, ◌+◌, ◌-◌, ◌≤◌, ◌<◌, min, Option, none, some, List, [], ◌∷◌, ◌≡◌, ◌⊎◌, inl, inr, arith,
  nat_eq,
}
use dawnchat_api.Ratelimits.Limiter.{Entry, Entries, Ratelimiter, Outcome, Readings, save, check}

-- One if the request was admitted.
abbrev pub count_of : Outcome → ℕ
count_of (Outcome.admitted r) = 1
count_of (Outcome.refused r) = 0

-- Requests one after the other, with the number of those admitted; `none` if one overflowed.
unfoldable pub run : ℕ → ℕ → List Readings → Entries → Option (ℕ × Entries)
run key limit [] map = some (0, map)
run key limit (t ∷ ts) map = elim (check map key limit t) [
  | none ↦ none
  | some (o, map') ↦ elim (run key limit ts map') [
    | none ↦ none
    | some (n, map'') ↦ some (count_of o + n, map'')
  ]
]

-- Every reading of the request that matters is made before the window is over.
abbrev pub IsBefore : ℕ → Readings → Type 0
IsBefore reset t = (t.at_remaining ≤ reset) × (t.at_deduct ≤ reset)

abbrev pub AllBefore : ℕ → List Readings → Type 0
AllBefore reset [] = Unit
AllBefore reset (t ∷ ts) = IsBefore reset t × AllBefore reset ts

abbrev pub length : List Readings → ℕ
length [] = 0
length (t ∷ ts) = suc (length ts)

module _ (key limit reset : ℕ) where
  entry : ℕ → Entry
  entry used = record { used = used; reset = reset }

  -- The step of the induction: refused at the limit, admitted below it.
  check_full :
      (map : Entries) (t : Readings)
      → map key ≡ some (entry limit)
      → IsBefore reset t
      → (r : Ratelimiter) × (check map key limit t ≡ some (Outcome.refused r, map))
  unfolding check entry
  check_full map t e b =
      (record { key = key; limit = limit; remaining = 0; reset = reset - t.at_left }, ground arith)

  check_free :
      (map : Entries) (t : Readings) (used : ℕ)
      → map key ≡ some (entry used)
      → used < limit
      → IsBefore reset t
      → (r : Ratelimiter) × (check map key limit t
          ≡ some (Outcome.admitted r, save (entry (used + 1)) map key))
        × (r.remaining ≡ limit - (used + 1))
  unfolding check entry
  check_free map t used e free b = (
    record {
      key = key;
      limit = limit;
      remaining = limit - used - 1;
      reset = reset - t.at_left_after;
    },
    ground arith,
    omega arith,
  )

  save-entry : (map : Entries) (used : ℕ) → save (entry used) map key key ≡ some (entry used)
  unfolding save
  save-entry map used = ground arith

  -- Within one window a key admits exactly as many requests as its entry leaves of the limit: of a run
  -- of requests the first `limit - used`, and none that follows, whatever the readings in between; and
  -- no request overflows.
  pub run_admits :
      (ts : List Readings) (map : Entries) (used : ℕ)
      → map key ≡ some (record { used = used; reset = reset })
      → used ≤ limit
      → AllBefore reset ts
      → (map' : Entries) × (run key limit ts map ≡ some (min (length ts) (limit - used), map'))
  unfolding run entry
  run_admits [] map used e w b = (map, ground arith)
  run_admits (t ∷ ts) map used e w b = elim (full_or_free used w) [
    | inl full ↦
        let (r, refused) = check_full map t (rw (← full) e) b.0 in
        let (map', rest) = run_admits ts map used e w b.1 in (map', ground arith)
    | inr free ↦
        let (r, admitted, _) = check_free map t used e free b.0 in
        let (map', rest) =
          run_admits ts (save (entry (used + 1)) map key) (used + 1) (save-entry map (used + 1))
            (omega arith) b.1 in
        (map', ground arith)
  ]
    where
      full_or_free : (u : ℕ) → u ≤ limit → (u ≡ limit) ⊎ (u < limit)
      full_or_free u h = omega arith
