-- ===== src/Ratelimits/Tests.antt =====
-- The limiter and the resolver on concrete requests.
use dawnchat_api.Prelude.{
  ℕ, min, none, some, List, [], ◌∷◌, String, ◌≡◌, refl, ◌==◌, nat_eq, if◌then◌else◌, arith,
}
use dawnchat_api.Ratelimits.Limiter.{Entries, Outcome, Readings, check}
use dawnchat_api.Ratelimits.Step.{IsWithin, Answers, check-IsWithin}
use dawnchat_api.Ratelimits.Window.{length, run, run_admits}
use dawnchat_api.Ratelimits.Resolver.{Method, resolve_bucket}

abbrev at : ℕ → Readings
at t = record {
  at_lookup = t;
  at_remaining = t;
  at_left = t;
  at_deduct = t;
  at_renewal = t;
  at_left_after = t;
}

-- Key 7 has been used once, in a window that ends at 10000.
abbrev entries : Entries
entries k = if k == 7 then some (record { used = 1; reset = 10000 }) else none

abbrev calls : List Readings
calls = at 1 ∷ at 2 ∷ at 3 ∷ at 10000 ∷ []

run_admits_example : (map' : Entries) × (run 7 3 calls entries ≡ some (min (length calls) 2, map'))
run_admits_example = run_admits 7 3 10000 calls entries 1 refl (omega arith) (
  (omega arith, omega arith),
  ((omega arith, omega arith), ((omega arith, omega arith), ((omega arith, omega arith), tt))),
)

entries-IsWithin : IsWithin (λ k. 3) entries
entries-IsWithin k e found = ground arith

check-IsWithin_example :
    (o : Outcome) × (map' : Entries) × (check entries 7 3 (at 5) ≡ some (o, map'))
    × Answers (λ k. 3) 7 entries (at 5) (o, map')
    × IsWithin (λ k. 3) map'
check-IsWithin_example = check-IsWithin (λ k. 3) entries 7 (at 5) entries-IsWithin (omega arith)

abbrev path : List String
path = "channels" ∷ "42" ∷ "messages" ∷ []

messaging :
    resolve_bucket (record { segments = path; method = Method.post }) ≡ ("messaging", some "42")
unfolding resolve_bucket
messaging = refl
