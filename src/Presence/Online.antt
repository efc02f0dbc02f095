-- ===== src/Presence/Online.antt =====
-- What the operations on sessions do to who is online.
use dawnchat_api.Prelude.{
  ℕ, Bool, true, false, ◌&&◌, String, some, List, [], ◌∷◌, ◌≡◌, refl, ◌≢◌, ◌↔◌, inl, inr, ◌∙◌, ◌==◌,
  ==_iff, ==_refl, nat_eq, string_eq, Bool-cases, arith,
}
use dawnchat_api.Models.{contains}
use dawnchat_api.Presence.Redis.{Redis, IsServing, add_to_set, add_to_set-holds}
use dawnchat_api.Presence.Sessions.{
  online_set, session_id, Setting, create_session, delete_session, is_online, common, filter_online,
}
use dawnchat_api.Presence.Invariant.{
  IsEmpty, IsUser, IsPresence, in_and_online, in_and_online-IsPresence, add_region-IsPresence,
}
use dawnchat_api.Presence.Removal.{IsWithout, delete_session_internal-IsWithout}
use dawnchat_api.Presence.Leaving.{delete_session_internal-Leaves}

eq_of_false_iff : (x y : Bool) → (x ≡ false → y ≡ false) → (y ≡ false → x ≡ false) → x ≡ y
eq_of_false_iff x y f g = ground arith

module _ {S : Type 0} (redis : Redis S) (setting : Setting) {holds : S → String → String → Bool}
    (laws : IsServing redis holds) where
  is_online_iff :
      (s : S) (u : String) → (is_online redis setting true s u ≡ false) ↔ IsEmpty holds s u
  unfolding is_online
  is_online_iff s u = let (b, e, known) = laws.knows s u in rw e known

  contains-common :
      (xs ys : List String) (u : String)
      → contains (common redis setting xs ys) u ≡ (contains xs u && contains ys u)
  unfolding common contains
  contains-common [] ys u = refl
  contains-common (x ∷ xs) ys u = elim (Bool-cases (contains ys x)) [
    | inl both ↦ ground (arith, contains-common xs ys u, ==_iff u x)
    | inr one ↦ ground (arith, contains-common xs ys u, ==_iff u x)
  ]

  -- The users that are found online are those of the given users who are online each by themselves:
  -- with a connection to a server that answers, on a store whose online set is as it should be, and
  -- for a user whose key is that of a user.
  pub filter_online-is_online :
      (s : S) (users : List String) (u : String)
      → IsPresence setting holds s
      → IsUser setting u
      → contains (filter_online redis setting true s users) u
        ≡ (contains users u && is_online redis setting true s u)
  unfolding filter_online contains
  filter_online-is_online s [] u h known = refl
  filter_online-is_online s (x ∷ xs) u h known =
      let (vs, e, listed) = laws.lists s online_set in
      let same : holds s online_set u ≡ is_online redis setting true s u =
        (let iff = is_online_iff s u in
          let both = h u known in
          eq_of_false_iff _ _ (λ off. iff.1 (both.0 off)) (λ off. both.1 (iff.0 off))) in
      rw e (contains-common vs (x ∷ xs) u ∙ ground (arith, listed u, same))

  module _ (apart : setting.region_key ≢ online_set) where
    online_of_holds :
        (s : S) (u v : String) → holds s u v ≡ true → is_online redis setting true s u ≡ true
    online_of_holds s u v has = elim (Bool-cases (is_online redis setting true s u)) [
      | inl on ↦ on
      | inr off ↦ absurd (cc (has, (is_online_iff s u).0 off v))
    ]

    holds_new :
        (s : S) (user session value : String)
        → IsUser setting user
        → holds
            (add_to_set redis
              (in_and_online redis setting laws apart s user session)
              setting.region_key
              value)
            user
            session
          ≡ true
    holds_new s user session value known = ground (
      arith,
      add_to_set-holds redis laws (in_and_online redis setting laws apart s user session)
          setting.region_key value user session,
      add_to_set-holds redis laws (add_to_set redis s user session) online_set user user session,
      add_to_set-holds redis laws s user session user session,
      ==_refl user,
      ==_refl session,
    )

    -- With a connection to a server that answers, a call of `create_session` returns; it says that the
    -- session is the first exactly if the user was not online, leaves the user online with the new
    -- session, and keeps it so that the online users are those with a session.
    pub create_session_opens :
        (random : ℕ) (s : S) (user : String) (flags : ℕ)
        → IsUser setting user
        → IsPresence setting holds s
        → (first : Bool) × (s' : S) × (create_session redis setting true random s user flags
            ≡ some ((first, session_id random flags), s'))
          × ((first ≡ true) ↔ (is_online redis setting true s user ≡ false))
          × (is_online redis setting true s' user ≡ true)
          × (holds s' user (setting.show (session_id random flags)) ≡ true)
          × IsPresence setting holds s'
    unfolding create_session
    create_session_opens random s user flags known h =
        let (n, counted, zero_iff) = laws.counts s user in
        let before = is_online_iff s user in
        let s2 : S = in_and_online redis setting laws apart s user (session random flags) in
        let s3 : S =
          add_to_set redis s2 setting.region_key (setting.entry user (session_id random flags)) in
        let new : holds s3 user (session random flags) ≡ true =
          holds_new s user (session random flags) _ known in
        (
          n == 0,
          s3,
          ground arith,
          (
            λ first. before.1 (zero_iff.0 ((==_iff n 0).0 first)),
            λ off. (==_iff n 0).1 (zero_iff.1 (before.0 off)),
          ),
          online_of_holds s3 user _ new,
          new,
          add_region-IsPresence redis setting laws apart s2 _
              (in_and_online-IsPresence redis setting laws apart s user _ known h),
        )
      where
        session : ℕ → ℕ → String
        session random flags = setting.show (session_id random flags)

    -- With a connection to a server that answers, a call of `delete_session` returns; it takes out of
    -- the store the session, its entry in the region and, with the last session of the user, the user
    -- among the online ones, and nothing else; it answers true exactly if the user is not online any
    -- more, and keeps it so that the online users are those with a session.
    pub delete_session_closes :
        (s : S) (user : String) (id : ℕ)
        → IsUser setting user
        → IsPresence setting holds s
        → (last : Bool) × (s' : S) × (delete_session redis setting true s user id ≡ some (last, s'))
          × IsWithout setting holds s s' user id false last
          × ((last ≡ true) ↔ (is_online redis setting true s' user ≡ false))
          × IsPresence setting holds s'
    unfolding delete_session
    delete_session_closes s user id known h =
        let (b, s', e, kept, claim) =
          delete_session_internal-Leaves redis setting laws apart s user id false known h in
        let iff = is_online_iff s' user in
        (
          b,
          s',
          e,
          delete_session_internal-IsWithout redis setting laws s s' user id false b e,
          (λ t. iff.1 (claim.0 t), λ off. claim.1 (iff.0 off)),
          kept,
        )
