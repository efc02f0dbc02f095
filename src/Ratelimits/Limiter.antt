-- ===== src/Ratelimits/Limiter.antt =====
-- The limiter (crates/core/ratelimits/src/ratelimiter.rs). Times are milliseconds since the epoch.
-- A call of `now()` is a reading of the clock, and every call has a reading of its own. The hasher
-- is a parameter: what `finish` returns after the given writes.
use dawnchat_api.Prelude.{
  ℕ, ◌+◌, ◌-◌, Option, none, some, List, [], ◌∷◌, String, ltb, leb, ◌==◌, nat_eq, if◌then◌else◌,
}

-- `Entry`.
pub record Entry : Type 0 where
  pub used : ℕ
  pub reset : ℕ

-- `DashMap<u64, Entry>`.
abbrev pub Entries : Type 0
Entries = ℕ → Option Entry

-- `Ratelimiter`.
pub record Ratelimiter : Type 0 where
  pub key : ℕ
  pub limit : ℕ
  pub remaining : ℕ
  pub reset : ℕ

-- `Result<Ratelimiter, Ratelimiter>`.
pub data Outcome : Type 0 where
  admitted : Ratelimiter → Outcome
  refused : Ratelimiter → Outcome

-- The readings of the clock within one call of `Ratelimiter::from`, in their order.
pub record Readings : Type 0 where
  pub at_lookup : ℕ
  pub at_remaining : ℕ
  pub at_left : ℕ
  pub at_deduct : ℕ
  pub at_renewal : ℕ
  pub at_left_after : ℕ

-- Ten seconds.
abbrev pub window : ℕ
window = 10000

-- `Entry::from`.
unfoldable pub entry_from : Entries → ℕ → ℕ → Entry
entry_from map key now = elim (map key) [
  | some entry ↦ entry
  | none ↦ record { used = 0; reset = now + window }
]

-- `Entry::deduct`; the second reading is made only if the window is over.
unfoldable pub deduct : Entry → ℕ → ℕ → Entry
deduct self current_time now =
    if ltb self.reset current_time
    then record { used = 1; reset = now + window }
    else record self { used = self.used + 1 }

-- `Entry::save`.
unfoldable pub save : Entry → Entries → ℕ → Entries
save self map key k = if key == k then some self else map k

-- `a - b` of unsigned integers: `none` is the overflow, a panic where overflows are checked.
abbrev pub checked_sub : ℕ → ℕ → Option ℕ
checked_sub a b = if leb b a then some (a - b) else none

-- `Entry::get_remaining`.
unfoldable pub get_remaining : Entry → ℕ → ℕ → Option ℕ
get_remaining self limit now =
    if ltb self.reset now then some limit else checked_sub limit self.used

-- `Entry::left_until_reset`, a saturating subtraction.
unfoldable pub left_until_reset : Entry → ℕ → ℕ
left_until_reset self current_time = self.reset - current_time

-- The part of `Ratelimiter::from` after the key: the outcome and the map, `none` for an overflow.
unfoldable pub check : Entries → ℕ → ℕ → Readings → Option (Outcome × Entries)
unfolding entry_from deduct save get_remaining left_until_reset
check map key limit t =
    let entry = entry_from map key t.at_lookup in
    elim (get_remaining entry limit t.at_remaining) [
      | none ↦ none
      | some remaining ↦
          let reset = left_until_reset entry t.at_left in
          if remaining == 0
          then some (
            Outcome.refused
                (record { key = key; limit = limit; remaining = remaining; reset = reset }),
            map,
          )
          else (let entry' = deduct entry t.at_deduct t.at_renewal in
              some (
                Outcome.admitted (record {
                  key = key;
                  limit = limit;
                  remaining = remaining - 1;
                  reset = left_until_reset entry' t.at_left_after;
                }),
                save entry' map key,
              ))
    ]

-- The writes to the hasher: identifier, bucket, and the resource if there is one.
unfoldable pub writes : String → String → Option String → List String
writes identifier bucket none = identifier ∷ bucket ∷ []
writes identifier bucket (some id) = identifier ∷ bucket ∷ id ∷ []

-- `Ratelimiter::from`.
unfoldable pub from :
    (List String → ℕ)
    → Entries
    → String
    → ℕ
    → String × Option String
    → Readings
    → Option (Outcome × Entries)
unfolding check writes
from finish map identifier limit (bucket, resource) t =
    check map (finish (writes identifier bucket resource)) limit t
