-- ===== src/Presence/Leaving.antt =====
-- A session is taken away, and its user goes offline with the last one.
use dawnchat_api.Prelude.{
  ℕ, Bool, true, false, not, ◌&&◌, String, Option, some, List, [], ◌∷◌, ◌≡◌, refl, ◌≢◌, ◌↔◌, inl,
  inr, sym, ap, ◌∙◌, ◌==◌, ==_iff, ==_ne, ==_refl, nat_eq, string_eq, Bool-cases, Option-cases,
  arith,
}
use dawnchat_api.Presence.Redis.{Redis, IsServing, remove_from_set, remove_from_set-holds}
use dawnchat_api.Presence.Sessions.{
  online_set, Setting, leave_if_empty, delete_session_internal, delete_all,
}
use dawnchat_api.Presence.Invariant.{IsEmpty, IsUser, IsPresence}

-- As `IsPresence`, but one user may be online without a session.
abbrev IsNear : {S : Type 0} → Setting → (S → String → String → Bool) → String → S → Type 0
IsNear setting holds user s =
    (u : String)
    → IsUser setting u
    → (holds s online_set u ≡ false → IsEmpty holds s u)
      × (u ≢ user → IsEmpty holds s u → holds s online_set u ≡ false)

module _ {S : Type 0} (redis : Redis S) (setting : Setting) {holds : S → String → String → Bool}
    (laws : IsServing redis holds) (apart : setting.region_key ≢ online_set) where
  remove_session-IsNear :
      (s : S) (user session : String)
      → IsUser setting user
      → IsPresence setting holds s
      → IsNear setting holds user (remove_from_set redis s user session)
  remove_session-IsNear s user session known h u other = (
    λ e v. ground (arith, own v, (h u other).0 (ground (arith, online)) v),
    λ different empty. ground (
      arith,
      online,
      (h u other).1 (λ v. ground (arith, own v, empty v, ==_ne u user different)),
    ),
  )
    where
      online : holds (remove_from_set redis s user session) online_set u ≡ holds s online_set u
      online = ground (
        arith,
        remove_from_set-holds redis laws s user session online_set u,
        ==_ne online_set user (λ e. known.0 (sym e)),
      )

      own :
          (v : String)
          → holds (remove_from_set redis s user session) u v
            ≡ (not (u == user && v == session) && holds s u v)
      own v = remove_from_set-holds redis laws s user session u v

  remove_region-IsNear :
      (s : S) (user value : String)
      → IsNear setting holds user s
      → IsNear setting holds user (remove_from_set redis s setting.region_key value)
  remove_region-IsNear s user value h u other = (
    λ e v. ground (arith, own v, (h u other).0 (ground (arith, online)) v),
    λ different empty.
        ground (arith, online, (h u other).1 different (λ v. ground (arith, own v, empty v))),
  )
    where
      online :
          holds (remove_from_set redis s setting.region_key value) online_set u
          ≡ holds s online_set u
      online = ground (
        arith,
        remove_from_set-holds redis laws s setting.region_key value online_set u,
        ==_ne online_set setting.region_key (λ e. apart (sym e)),
      )

      own :
          (v : String) → holds (remove_from_set redis s setting.region_key value) u v ≡ holds s u v
      own v = ground (
        arith,
        remove_from_set-holds redis laws s setting.region_key value u v,
        ==_ne u setting.region_key other.1,
      )

  -- The user goes offline.
  remove_online-IsPresence :
      (s : S) (user : String)
      → IsUser setting user
      → IsEmpty holds s user
      → IsNear setting holds user s
      → IsPresence setting holds (remove_from_set redis s online_set user)
  remove_online-IsPresence s user known gone h u other = elim (Bool-cases (u == user)) [
    | inl same ↦ (
      λ e v. own v ∙ ground (arith, (==_iff u user).0 same, gone v),
      λ empty. ground (arith, online, same),
    )
    | inr apart ↦ (
      λ e v. own v ∙ (h u other).0 (ground (arith, online)) v,
      λ empty. ground (
        arith,
        online,
        (h u other).1 (λ e. cc (apart, (==_iff u user).1 e)) (λ v. sym (own v) ∙ empty v),
      ),
    )
  ]
    where
      online :
          holds (remove_from_set redis s online_set user) online_set u
          ≡ (not (u == user) && holds s online_set u)
      online = ground (
        arith,
        remove_from_set-holds redis laws s online_set user online_set u,
        ==_refl online_set,
      )

      own : (v : String) → holds (remove_from_set redis s online_set user) u v ≡ holds s u v
      own v = ground (
        arith,
        remove_from_set-holds redis laws s online_set user u v,
        ==_ne u online_set other.0,
      )

  -- The outcome of a call: the store is as it should be, and the answer is whether the user has no
  -- session left.
  abbrev pub Leaves : Option (Bool × S) → String → Type 0
  Leaves r user =
      (b : Bool) × (s' : S) × (r ≡ some (b, s'))
      × IsPresence setting holds s'
      × ((b ≡ true) ↔ IsEmpty holds s' user)

  leave_if_empty-Leaves :
      (s : S) (user : String)
      → IsUser setting user
      → IsNear setting holds user s
      → Leaves (leave_if_empty redis setting s user) user
  unfolding leave_if_empty
  leave_if_empty-Leaves s user known h =
      let (n, counted, zero_iff) = laws.counts s user in
      elim (Bool-cases (n == 0)) [
        | inl none_left ↦
            let gone : IsEmpty holds s user = zero_iff.0 ((==_iff n 0).0 none_left) in
            (
              true,
              remove_from_set redis s online_set user,
              ground arith,
              remove_online-IsPresence s user known gone h,
              (
                λ _ v.
                    ground
                      (arith, remove_from_set-holds redis laws s online_set user user v, gone v),
                λ _. refl,
              ),
            )
        | inr some_left ↦
            let stays : ¬ IsEmpty holds s user =
              λ empty. cc (some_left, (==_iff n 0).1 (zero_iff.1 empty)) in
            (
              false,
              s,
              ground arith,
              (λ u other. (
                (h u other).0,
                λ empty.
                    (h u other).1 (λ e. stays (λ v. ap (λ k. holds s k v) (sym e) ∙ empty v)) empty,
              )),
              (λ e. cc, λ empty. absurd (stays empty)),
            )
      ]

  pub delete_session_internal-Leaves :
      (s : S) (user : String) (id : ℕ) (skip_region : Bool)
      → IsUser setting user
      → IsPresence setting holds s
      → Leaves (delete_session_internal redis setting true s user id skip_region) user
  unfolding delete_session_internal
  delete_session_internal-Leaves s user id true known h =
      leave_if_empty-Leaves _ user known (remove_session-IsNear s user _ known h)
  delete_session_internal-Leaves s user id false known h =
      leave_if_empty-Leaves _ user known
        (remove_region-IsNear _ user _ (remove_session-IsNear s user _ known h))

  -- The entries of a region name users.
  abbrev pub NamesUsers : List String → Type 0
  NamesUsers [] = Unit
  NamesUsers (x ∷ xs) =
      ((u : String) (id : ℕ) → setting.parse x ≡ some (u, id) → IsUser setting u) × NamesUsers xs

  pub delete_all-IsPresence :
      (xs : List String) (s : S)
      → NamesUsers xs
      → IsPresence setting holds s
      → (s' : S) × (delete_all redis setting s xs ≡ some s') × IsPresence setting holds s'
  unfolding delete_all
  delete_all-IsPresence [] s named h = (s, refl, h)
  delete_all-IsPresence (x ∷ xs) s named h = elim (Option-cases (setting.parse x)) [
    | inl unread ↦ let (s', e, h') = delete_all-IsPresence xs s named.1 h in (s', ground arith, h')
    | inr ((u, id), read) ↦
        let (b, s1, e1, h1, _) = delete_session_internal-Leaves s u id true (named.0 u id read) h in
        let (s', e, h') = delete_all-IsPresence xs s1 named.1 h1 in (s', ground arith, h')
  ]
