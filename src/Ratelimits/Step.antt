-- ===== src/Ratelimits/Step.antt =====
-- One request at the limiter.
use dawnchat_api.Prelude.{
  ℕ, ◌+◌, ◌-◌, ◌≤◌, ◌<◌, none, some, if◌then◌else◌, ◌≡◌, refl, ◌≢◌, ◌⊎◌, inl, inr, arith, ltb,
  nat_eq, Option-cases,
}
use dawnchat_api.Ratelimits.Limiter.{
  Entry, Entries, Outcome, Readings, entry_from, deduct, save, get_remaining, left_until_reset,
  window, check,
}

-- No entry has used up more than the limit of its key.
abbrev pub IsWithin : (ℕ → ℕ) → Entries → Type 0
IsWithin limit map = (k : ℕ) (e : Entry) → map k ≡ some e → e.used ≤ limit k

-- How many requests of the key count at a time: those of its entry, unless its window is over.
abbrev pub counted : Entries → ℕ → ℕ → ℕ
counted map key now = elim (map key) [ none ↦ 0 | some e ↦ if ltb e.reset now then 0 else e.used ]

-- When the window of the key ends: a window that runs stays, else a new one begins.
abbrev pub window_end : Entries → ℕ → Readings → ℕ
window_end map key t =
    let reset : ℕ = elim (map key) [ none ↦ t.at_lookup + window | some e ↦ e.reset ] in
    if ltb reset t.at_deduct then t.at_renewal + window else reset

-- What a request does: it is refused, the limit being used up, and the entries stay; or it is
-- admitted, less than the limit being used up, charges its key one more than what counts, and reports
-- what is left of what counted.
abbrev pub Answers : (ℕ → ℕ) → ℕ → Entries → Readings → Outcome × Entries → Type 0
Answers limit key map t (Outcome.refused r, map') =
    (counted map key t.at_remaining ≡ limit key) × (r.remaining ≡ 0) × ((k : ℕ) → map' k ≡ map k)
Answers limit key map t (Outcome.admitted r, map') =
    (e : Entry) × (map' key ≡ some e)
    × (e.used ≡ counted map key t.at_deduct + 1)
    × (e.reset ≡ window_end map key t)
    × (r.remaining + 1 + counted map key t.at_remaining ≡ limit key)
    × ((k : ℕ) → k ≢ key → map' k ≡ map k)

-- Of the readings within a request only this order matters.
abbrev pub IsOrdered : Readings → Type 0
IsOrdered t = t.at_remaining ≤ t.at_deduct

entry_from-within :
    (limit : ℕ → ℕ) (map : Entries) (key now : ℕ)
    → IsWithin limit map
    → (entry_from map key now).used ≤ limit key
unfolding entry_from
entry_from-within limit map key now h = elim (Option-cases (map key)) [
  | inl new ↦ ground arith
  | inr (e, found) ↦ ground (arith, h key e found)
]

-- What is left of the limit is what does not count.
get_remaining-counted :
    (limit : ℕ → ℕ) (map : Entries) (key lookup now : ℕ)
    → IsWithin limit map
    → get_remaining (entry_from map key lookup) (limit key) now
      ≡ some (limit key - counted map key now)
unfolding get_remaining entry_from
get_remaining-counted limit map key lookup now h = elim (Option-cases (map key)) [
  | inl new ↦ ground arith
  | inr (e, found) ↦ ground (arith, h key e found)
]

counted-within :
    (limit : ℕ → ℕ) (map : Entries) (key now : ℕ)
    → IsWithin limit map
    → counted map key now ≤ limit key
counted-within limit map key now h = elim (Option-cases (map key)) [
  | inl new ↦ ground arith
  | inr (e, found) ↦ ground (arith, h key e found)
]

counted-falls :
    (map : Entries) (key now later : ℕ) → now ≤ later → counted map key later ≤ counted map key now
counted-falls map key now later o = ground arith

-- The deduction counts one more, in the window that runs or in a new one.
deduct-counted :
    (map : Entries) (key : ℕ) (t : Readings)
    → let e = deduct (entry_from map key t.at_lookup) t.at_deduct t.at_renewal in
      (e.used ≡ counted map key t.at_deduct + 1) × (e.reset ≡ window_end map key t)
unfolding deduct entry_from
deduct-counted map key t = elim (Option-cases (map key)) [
  | inl new ↦ ground arith
  | inr (e, found) ↦ ground arith
]

save_self : (e : Entry) (map : Entries) (key : ℕ) → save e map key key ≡ some e
unfolding save
save_self e map key = ground arith

save_other : (e : Entry) (map : Entries) (key k : ℕ) → k ≢ key → save e map key k ≡ map k
unfolding save
save_other e map key k h = ground arith

save-IsWithin :
    (limit : ℕ → ℕ) (e : Entry) (map : Entries) (key : ℕ)
    → IsWithin limit map
    → e.used ≤ limit key
    → IsWithin limit (save e map key)
unfolding save
save-IsWithin limit e map key h w k f found = ground (arith, h k f)

zero-or-pos : (r : ℕ) → (r ≡ 0) ⊎ (0 < r)
zero-or-pos r = omega arith

module _ (limit : ℕ → ℕ) (map : Entries) (key : ℕ) (t : Readings) where
  found : Entry
  found = entry_from map key t.at_lookup

  charged : Entry
  unfolding found
  charged = deduct found t.at_deduct t.at_renewal

  refusal : Outcome
  unfolding found
  refusal = Outcome.refused (record {
    key = key;
    limit = limit key;
    remaining = 0;
    reset = left_until_reset found t.at_left;
  })

  admission : ℕ → Outcome
  unfolding charged
  admission r = Outcome.admitted (record {
    key = key;
    limit = limit key;
    remaining = r - 1;
    reset = left_until_reset charged t.at_left_after;
  })

  check_out :
      get_remaining found (limit key) t.at_remaining ≡ some 0
      → check map key (limit key) t ≡ some (refusal, map)
  unfolding check refusal
  check_out left = ground arith

  check_left :
      (r : ℕ)
      → get_remaining found (limit key) t.at_remaining ≡ some r
      → 0 < r
      → check map key (limit key) t ≡ some (admission r, save charged map key)
  unfolding check admission
  check_left r left more = ground arith

  -- A request never overflows: on entries within their limits it is answered, and the entries stay
  -- within their limits. It is refused only if the limit is used up in the window that runs, and then
  -- changes no entry; it is admitted only if less is used up, charges its key exactly one request,
  -- in the window that runs or as the first of a new one, reports what is left, and touches no other
  -- key. (The clock must not go back between the test and the deduction.)
  pub check-IsWithin :
      IsWithin limit map
      → IsOrdered t
      → (o : Outcome) × (map' : Entries) × (check map key (limit key) t ≡ some (o, map'))
        × Answers limit key map t (o, map')
        × IsWithin limit map'
  unfolding refusal admission charged found
  check-IsWithin h ordered =
      let left = get_remaining-counted limit map key t.at_lookup t.at_remaining h in
      let fits = counted-within limit map key t.at_remaining h in
      let fewer = counted-falls map key t.at_remaining t.at_deduct ordered in
      let (used, ends) = deduct-counted map key t in
      elim (zero-or-pos (limit key - counted map key t.at_remaining)) [
        | inl out ↦ (refusal, map, check_out (rw (← out) left), (omega arith, refl, λ k. refl), h)
        | inr more ↦ (
          admission (limit key - counted map key t.at_remaining),
          save charged map key,
          check_left _ left more,
          (charged, save_self charged map key, used, ends, omega arith, save_other charged map key),
          save-IsWithin limit charged map key h (omega arith),
        )
      ]
