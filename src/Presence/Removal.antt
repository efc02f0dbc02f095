-- ===== src/Presence/Removal.antt =====
-- What the removal of sessions takes out of the store, and what it leaves.
use dawnchat_api.Prelude.{
  ℕ, Bool, true, false, not, ◌&&◌, ◌||◌, String, none, some, List, [], ◌∷◌, ◌≡◌, refl, inl, inr, ap,
  ◌∙◌, ◌==◌, ==_ne, nat_eq, string_eq, Bool-cases, Option-cases, arith,
}
use dawnchat_api.Presence.Redis.{Redis, IsServing, remove_from_set, remove_from_set-holds}
use dawnchat_api.Presence.Sessions.{
  online_set, Setting, leave_if_empty, delete_session_internal, delete_all,
}
use dawnchat_api.Presence.Invariant.{IsUser}

-- Of the store `s` are left in `s'` all elements of all sets, but for the user's session, unless it is
-- kept its entry in the region, and, if it was the last session, the user among the online ones.
abbrev pub IsWithout :
    {S : Type 0}
    → Setting
    → (S → String → String → Bool)
    → S
    → S
    → String
    → ℕ
    → Bool
    → Bool
    → Type 0
IsWithout setting holds s s' user id skip_region last =
    (j w : String)
    → holds s' j w ≡ (
        not (j == user && w == setting.show id)
        && not (not skip_region && (j == setting.region_key && w == setting.entry user id))
        && not (last && (j == online_set && w == user))
        && holds s j w)

-- Some entry of the list names the user and the session.
abbrev pub is_named : Setting → List String → String → String → Bool
is_named setting [] user session = false
is_named setting (x ∷ xs) user session =
    elim (setting.parse x) [
      | none ↦ false
      | some (named, id) ↦ user == named && session == setting.show id
    ]
    || is_named setting xs user session

module _ {S : Type 0} (redis : Redis S) (setting : Setting) {holds : S → String → String → Bool}
    (laws : IsServing redis holds) where
  leave_if_empty-holds :
      (s s' : S) (user : String) (last : Bool) (j w : String)
      → leave_if_empty redis setting s user ≡ some (last, s')
      → holds s' j w ≡ (not (last && (j == online_set && w == user)) && holds s j w)
  unfolding leave_if_empty
  leave_if_empty-holds s s' user last j w e =
      let (n, counted, _) = laws.counts s user in
      elim (Bool-cases (n == 0)) [
        | inl none_left ↦
            let gone : s' ≡ remove_from_set redis s online_set user = ground arith in
            let was : last ≡ true = ground arith in
            ap (λ t. holds t j w) gone
            ∙ (rw was (remove_from_set-holds redis laws s online_set user j w))
        | inr some_left ↦
            let same : s' ≡ s = ground arith in
            let was : last ≡ false = ground arith in ap (λ t. holds t j w) same ∙ (rw was refl)
      ]

  pub delete_session_internal-IsWithout :
      (s s' : S) (user : String) (id : ℕ) (skip_region last : Bool)
      → delete_session_internal redis setting true s user id skip_region ≡ some (last, s')
      → IsWithout setting holds s s' user id skip_region last
  unfolding delete_session_internal
  delete_session_internal-IsWithout s s' user id true last e j w =
      let s1 = remove_from_set redis s user (setting.show id) in
      leave_if_empty-holds s1 s' user last j w e
      ∙ ground (arith, remove_from_set-holds redis laws s user (setting.show id) j w)
  delete_session_internal-IsWithout s s' user id false last e j w =
      let s1 = remove_from_set redis s user (setting.show id) in
      let entry = setting.entry user id in
      leave_if_empty-holds (remove_from_set redis s1 setting.region_key entry) s' user last j w e
      ∙ ground (
        arith,
        remove_from_set-holds redis laws s1 setting.region_key entry j w,
        remove_from_set-holds redis laws s user (setting.show id) j w,
      )

  pub delete_all-holds :
      (xs : List String) (s s' : S) (u w : String)
      → IsUser setting u
      → delete_all redis setting s xs ≡ some s'
      → holds s' u w ≡ (not (is_named setting xs u w) && holds s u w)
  unfolding delete_all
  delete_all-holds [] s s' u w known e = ground arith
  delete_all-holds (x ∷ xs) s s' u w known e = elim (Option-cases (setting.parse x)) [
    | inl unread ↦ ground (arith, delete_all-holds xs s s' u w known)
    | inr ((named, id), read) ↦
        elim (Option-cases (delete_session_internal redis setting true s named id true)) [
          | inl failed ↦ ground arith
          | inr ((last, s1), done) ↦ ground (
            arith,
            delete_all-holds xs s1 s' u w known,
            delete_session_internal-IsWithout s s1 named id true last done u w,
            ==_ne u online_set known.0,
          )
        ]
  ]
