-- ===== src/Users/Lookup.antt =====
-- What a relationship reads as after one of the lists was changed.
use dawnchat_api.Prelude.{
  none, some, List, [], ◌∷◌, ◌++◌, String, ◌≡◌, refl, ◌≢◌, arith, ◌==◌, ==_iff, string_eq,
  Option-cases, Bool-cases, inl, inr, if◌then◌else◌,
}
use dawnchat_api.Errors.{ok}
use dawnchat_api.Models.{RelationshipStatus, Relationship, User}
use dawnchat_api.Users.Relations.{
  Users, find, relationship_with, retain_others, clears, with_relation, put, store_relationship,
}

find-retain_self : (xs : List Relationship) (b : String) → find (retain_others b xs) b ≡ none
unfolding find retain_others
find-retain_self [] b = refl
find-retain_self (x ∷ xs) b = ground (arith, find-retain_self xs b)

find-retain_other :
    (xs : List Relationship) (b c : String) → c ≢ b → find (retain_others b xs) c ≡ find xs c
unfolding find retain_others
find-retain_other [] b c h = refl
find-retain_other (x ∷ xs) b c h =
    ground (arith, find-retain_other xs b c h, ==_iff x.id b, ==_iff x.id c)

find-append :
    (xs : List Relationship) (r : Relationship) (c : String)
    → find (xs ++ r ∷ []) c
      ≡ (elim (find xs c) [ some s ↦ some s | none ↦ if r.id == c then some r.status else none ])
unfolding find
find-append [] r c = ground arith
find-append (x ∷ xs) r c = ground (arith, find-append xs r c)

-- A relationship that is cleared reads as none.
abbrev pub stored : RelationshipStatus → RelationshipStatus
stored RelationshipStatus.user = RelationshipStatus.none
stored s = s

pub with_relation-id :
    (u : User) (b : String) (s : RelationshipStatus) → (with_relation u b s).id ≡ u.id
unfolding with_relation
with_relation-id u b s = ground arith

pub relationship_with_self :
    (u : User) (b : String) (s : RelationshipStatus)
    → u.id ≢ b
    → relationship_with (with_relation u b s) b ≡ stored s
unfolding relationship_with with_relation
relationship_with_self u b s h = elim (Option-cases u.relations) [
  | inl fresh ↦ ground (arith, ==_iff u.id b, ==_iff b b)
  | inr (xs, e) ↦ ground (
    arith,
    ==_iff u.id b,
    ==_iff b b,
    find-retain_self xs b,
    find-append (retain_others b xs) (record { id = b; status = s }) b,
  )
]

pub relationship_with_other :
    (u : User) (b c : String) (s : RelationshipStatus)
    → c ≢ b
    → relationship_with (with_relation u b s) c ≡ relationship_with u c
unfolding relationship_with with_relation
relationship_with_other u b c s h = elim (Option-cases u.relations) [
  | inl fresh ↦ ground (arith, ==_iff b c)
  | inr (xs, e) ↦ ground (
    arith,
    ==_iff b c,
    find-retain_other xs b c h,
    find-append (retain_others b xs) (record { id = b; status = s }) c,
  )
]

put_self : (users : Users) (id : String) (u : User) → put users id u id ≡ some u
unfolding put
put_self users id u = ground (arith, ==_iff id id)

put_other : (users : Users) (id k : String) (u : User) → k ≢ id → put users id u k ≡ users k
unfolding put
put_other users id k u h = ground (arith, ==_iff k id)

-- The store changes the stored user as `set_relationship` changes the user in memory, and no other.
abbrev pub Stores : Users → User → String → RelationshipStatus → Type 0
Stores users u b s =
    (users' : Users) × (store_relationship users u.id b s ≡ ok users')
    × (users' u.id ≡ some (with_relation u b s))
    × ((k : String) → k ≢ u.id → users' k ≡ users k)

-- For a user that is stored as it is in memory, the store's change of a relationship succeeds, and
-- leaves that user stored as the change in memory leaves it, and every other user as it was.
pub store_relationship-Stores :
    (users : Users) (u : User) (b : String) (s : RelationshipStatus)
    → users u.id ≡ some u
    → Stores users u b s
unfolding store_relationship with_relation
store_relationship-Stores users u b s h = elim (Bool-cases (clears s)) [
  | inl gone ↦ elim (Option-cases u.relations) [
    | inl fresh ↦ (users, ground arith, ground arith, λ k other. refl)
    | inr (xs, e) ↦ written (ground arith)
  ]
  | inr kept ↦ elim (Option-cases u.relations) [
    | inl fresh ↦ written (ground arith)
    | inr (xs, e) ↦ written (ground arith)
  ]
]
  where
    changed : User
    changed = with_relation u b s

    written : store_relationship users u.id b s ≡ ok (put users u.id changed) → Stores users u b s
    written e = (
      put users u.id changed,
      e,
      put_self users u.id changed,
      λ k. put_other users u.id k changed,
    )
