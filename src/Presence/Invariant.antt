-- ===== src/Presence/Invariant.antt =====
-- The set of online users holds exactly the users who have a session.
use dawnchat_api.Prelude.{
  Bool, false, ◌&&◌, ◌||◌, String, ◌≡◌, ◌≢◌, ◌↔◌, inl, inr, sym, ◌==◌, ==_ne, ==_refl, nat_eq,
  string_eq, Bool-cases, arith,
}
use dawnchat_api.Presence.Redis.{Redis, IsServing, add_to_set, add_to_set-holds}
use dawnchat_api.Presence.Sessions.{online_set, Setting}

-- The set with this key is empty.
abbrev pub IsEmpty : {S : Type 0} → (S → String → String → Bool) → S → String → Type 0
IsEmpty holds s key = (v : String) → holds s key v ≡ false

-- The key of a user: neither that of the online users nor that of the region.
abbrev pub IsUser : Setting → String → Type 0
IsUser setting u = (u ≢ online_set) × (u ≢ setting.region_key)

-- A user is in the set of online users exactly if the set of the user's sessions is not empty.
abbrev pub IsPresence : {S : Type 0} → Setting → (S → String → String → Bool) → S → Type 0
IsPresence setting holds s =
    (u : String) → IsUser setting u → (holds s online_set u ≡ false) ↔ IsEmpty holds s u

module _ {S : Type 0} (redis : Redis S) (setting : Setting) {holds : S → String → String → Bool}
    (laws : IsServing redis holds) (apart : setting.region_key ≢ online_set) where
  -- A session is added for a user, and the user to the online ones.
  abbrev pub in_and_online : S → String → String → S
  in_and_online s user session = add_to_set redis (add_to_set redis s user session) online_set user

  pub in_and_online-IsPresence :
      (s : S) (user session : String)
      → IsUser setting user
      → IsPresence setting holds s
      → IsPresence setting holds (in_and_online s user session)
  in_and_online-IsPresence s user session known h u other = elim (Bool-cases (u == user)) [
    | inl same ↦
        (λ e. cc (online, same, e), λ empty. cc (own session, same, ==_refl session, empty session))
    | inr apart ↦ (
      λ e v. ground (arith, own v, online, (h u other).0 (ground (arith, online)) v),
      λ empty. ground (arith, online, (h u other).1 (λ v. ground (arith, own v, empty v))),
    )
  ]
    where
      online :
          holds (add_to_set redis (add_to_set redis s user session) online_set user) online_set u
          ≡ (u == user || holds s online_set u)
      online = ground (
        arith,
        add_to_set-holds redis laws (add_to_set redis s user session) online_set user online_set u,
        add_to_set-holds redis laws s user session online_set u,
        ==_refl online_set,
        ==_ne online_set user (λ e. known.0 (sym e)),
      )

      own :
          (v : String)
          → holds (add_to_set redis (add_to_set redis s user session) online_set user) u v
            ≡ ((u == user && v == session) || holds s u v)
      own v = ground (
        arith,
        add_to_set-holds redis laws (add_to_set redis s user session) online_set user u v,
        add_to_set-holds redis laws s user session u v,
        ==_ne u online_set other.0,
      )

  -- What happens in the set of a region does not matter.
  pub add_region-IsPresence :
      (s : S) (value : String)
      → IsPresence setting holds s
      → IsPresence setting holds (add_to_set redis s setting.region_key value)
  add_region-IsPresence s value h u other = (
    λ e v. ground (arith, own v, online, (h u other).0 (ground (arith, online)) v),
    λ empty. ground (arith, online, (h u other).1 (λ v. ground (arith, own v, empty v))),
  )
    where
      online :
          holds (add_to_set redis s setting.region_key value) online_set u ≡ holds s online_set u
      online = ground (
        arith,
        add_to_set-holds redis laws s setting.region_key value online_set u,
        ==_ne online_set setting.region_key (λ e. apart (sym e)),
      )

      own : (v : String) → holds (add_to_set redis s setting.region_key value) u v ≡ holds s u v
      own v = ground (
        arith,
        add_to_set-holds redis laws s setting.region_key value u v,
        ==_ne u setting.region_key other.1,
      )
