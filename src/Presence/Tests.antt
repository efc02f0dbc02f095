-- ===== src/Presence/Tests.antt =====
-- A server of sets in memory, and the operations on it.
use mathlib.Core.Option
use dawnchat_api.Prelude.{
  ℕ, ◌+◌, Bool, true, false, not, ◌&&◌, String, none, some, List, [], ◌∷◌, ◌≡◌, refl, ◌≢◌, ◌↔◌, ap,
  ◌==◌, ==_iff, ==_refl, ==_ne, ne_of_test, nat_eq, string_eq, Bool-cases, inl, inr, arith,
  if◌then◌else◌,
}
use dawnchat_api.Models.{contains}
use dawnchat_api.Presence.Redis.{Redis, IsServing}
use dawnchat_api.Presence.Sessions.{
  session_id, Setting, create_session, delete_session, is_online, filter_online, clear_region,
}
use dawnchat_api.Presence.Invariant.{IsEmpty, IsUser, IsPresence}
use dawnchat_api.Presence.Online.{
  filter_online-is_online, create_session_opens, delete_session_closes,
}
use dawnchat_api.Presence.Region.{AreCleared, clear_region_clears}
use dawnchat_api.Presence.Removal.{IsWithout}

abbrev Sets : Type 0
Sets = String → List String

abbrev holds : Sets → String → String → Bool
holds s k v = contains (s k) v

abbrev put : Sets → String → List String → Sets
put s k xs j = if j == k then xs else s j

unfoldable without : String → List String → List String
without v [] = []
without v (x ∷ xs) = if v == x then without v xs else x ∷ without v xs

unfoldable size : List String → ℕ
size [] = 0
size (x ∷ xs) = size xs + 1

abbrev is_filled : List String → Bool
is_filled [] = false
is_filled (x ∷ xs) = true

abbrev memory : Redis Sets
memory = record {
  sadd = λ s k v. some (put s k (v ∷ s k));
  srem = λ s k v. some (put s k (without v (s k)));
  scard = λ s k. some (size (s k));
  smembers = λ s k. some (s k);
  exists_key = λ s k. some (is_filled (s k));
  del = λ s k. some (put s k []);
}

contains-without :
    (v w : String) (xs : List String) → contains (without v xs) w ≡ (not (w == v) && contains xs w)
unfolding contains without
contains-without v w [] = ground arith
contains-without v w (x ∷ xs) =
    ground (arith, contains-without v w xs, ==_iff v x, ==_iff w x, ==_iff w v)

size_iff : (xs : List String) → (size xs ≡ 0) ↔ ((v : String) → contains xs v ≡ false)
unfolding contains size
size_iff [] = (λ _ v. refl, λ _. refl)
size_iff (x ∷ xs) = (λ e. absurd (omega arith), λ h. absurd (cc (h x, ==_refl x)))

is_filled_iff : (xs : List String) → (is_filled xs ≡ false) ↔ ((v : String) → contains xs v ≡ false)
unfolding contains
is_filled_iff [] = (λ _ v. refl, λ _. refl)
is_filled_iff (x ∷ xs) = (λ e. cc, λ h. absurd (cc (h x, ==_refl x)))

memory-IsServing : IsServing memory holds
unfolding contains
memory-IsServing = record {
  adds = λ s k v. (_, refl, λ j w. ground (arith, ==_iff j k));
  removes = λ s k v. (_, refl, λ j w. ground (arith, ==_iff j k, contains-without v w (s k)));
  counts = λ s k. (_, refl, size_iff (s k));
  lists = λ s k. (_, refl, λ v. refl);
  knows = λ s k. (_, refl, is_filled_iff (s k));
  deletes = λ s k. (_, refl, λ j w. ground (arith, ==_iff j k));
}

-- One region, and sessions by one letter each.
abbrev setting : Setting
setting = record {
  region_key = "region0";
  show = λ id. if id == 5 then "5" else "4";
  entry = λ user id. "ada:5";
  parse = λ x. some ("ada", 5);
}

abbrev nobody : Sets
nobody k = []

nobody-IsPresence : IsPresence setting holds nobody
unfolding contains
nobody-IsPresence u known = (λ _ v. refl, λ _. refl)

ada-IsUser : IsUser setting "ada"
ada-IsUser = (ne_of_test "ada" "online" refl, ne_of_test "ada" "region0" refl)

apart : ◌≢◌ {A = String} "region0" "online"
apart = ne_of_test "region0" "online" refl

create_session_opens_example :
    (first : Bool) × (s' : Sets) × (create_session memory setting true 4 nobody "ada" 1
      ≡ some ((first, session_id 4 1), s'))
    × ((first ≡ true) ↔ (is_online memory setting true nobody "ada" ≡ false))
    × (is_online memory setting true s' "ada" ≡ true)
    × (holds s' "ada" (setting.show (session_id 4 1)) ≡ true)
    × IsPresence setting holds s'
create_session_opens_example =
    create_session_opens memory setting {holds = holds} memory-IsServing apart 4 nobody "ada" 1
      ada-IsUser nobody-IsPresence

-- One session of one user.
abbrev one : Sets
one k =
    if k == "ada"
    then "5" ∷ []
    else if k == "online"
    then "ada" ∷ []
    else if k == "region0"
    then "ada:5" ∷ []
    else []

one-IsPresence : IsPresence setting holds one
unfolding contains
one-IsPresence u known = elim (Bool-cases (u == "ada")) [
  | inl same ↦ rw ((==_iff u "ada").0 same) (λ e. absurd (cc e), λ empty. absurd (cc (empty "5")))
  | inr other ↦ (
    λ _ v. ground (arith, ==_ne u "online" known.0, ==_ne u "region0" known.1),
    λ _. ground arith,
  )
]

delete_session_closes_example :
    (last : Bool) × (s' : Sets) × (delete_session memory setting true one "ada" 5 ≡ some (last, s'))
    × IsWithout setting holds one s' "ada" 5 false last
    × ((last ≡ true) ↔ (is_online memory setting true s' "ada" ≡ false))
    × IsPresence setting holds s'
delete_session_closes_example =
    delete_session_closes memory setting {holds = holds} memory-IsServing apart one "ada" 5
      ada-IsUser one-IsPresence

filter_online-is_online_example :
    contains (filter_online memory setting true one ("bob" ∷ "ada" ∷ [])) "ada"
    ≡ (contains ("bob" ∷ "ada" ∷ []) "ada" && is_online memory setting true one "ada")
filter_online-is_online_example =
    filter_online-is_online memory setting {holds = holds} memory-IsServing one ("bob" ∷ "ada" ∷ [])
      "ada" one-IsPresence ada-IsUser

named : {u : String} → "ada" ≡ u → IsUser setting u
named e = rw (← e) ada-IsUser

clear_region_clears_example :
    (s' : Sets) × (clear_region memory setting one none ≡ some s')
    × AreCleared memory setting {holds = holds} memory-IsServing apart ("ada:5" ∷ []) one s'
    × IsEmpty holds s' "region0"
    × IsPresence setting holds s'
clear_region_clears_example =
    clear_region_clears memory setting {holds = holds} memory-IsServing apart one ("ada:5" ∷ [])
      refl ((λ u id e. named (ap (λ o. (Option.get_or {A = String × ℕ} o ("", 0)).0) e)), tt)
      one-IsPresence
