-- ===== src/Users/Relations.antt =====
-- One user's list of relationships, in memory (crates/core/database/src/models/users/model.rs) and
-- in the store of the reference driver (crates/core/database/src/models/users/ops/reference.rs).
use dawnchat_api.Prelude.{
  ℕ, ◌+◌, Bool, true, false, not, Option, none, some, List, [], ◌∷◌, ◌++◌, String, ◌==◌, string_eq,
  if◌then◌else◌,
}
use dawnchat_api.Errors.{ErrorType, Result, ok, err}
use dawnchat_api.Models.{RelationshipStatus, Relationship, User}

-- `relations.iter().find(|x| x.id == user_b)`, by its status.
unfoldable pub find : List Relationship → String → Option RelationshipStatus
find [] b = none
find (x ∷ xs) b = if x.id == b then some x.status else find xs b

-- `User::relationship_with`.
unfoldable pub relationship_with : User → String → RelationshipStatus
unfolding find
relationship_with self user_b =
    if self.id == user_b then RelationshipStatus.user else elim self.relations [
      | none ↦ RelationshipStatus.none
      | some relations ↦ elim (find relations user_b) [
        | none ↦ RelationshipStatus.none
        | some status ↦ status
      ]
    ]

-- `relations.retain(|relation| relation.id != id)`.
unfoldable pub retain_others : String → List Relationship → List Relationship
retain_others id [] = []
retain_others id (x ∷ xs) =
    if not (x.id == id) then x ∷ retain_others id xs else retain_others id xs

-- `if let RelationshipStatus::None | RelationshipStatus::User = status`.
unfoldable pub clears : RelationshipStatus → Bool
clears RelationshipStatus.none = true
clears RelationshipStatus.user = true
clears _ = false

-- What `User::set_relationship` does to the user in memory.
unfoldable pub with_relation : User → String → RelationshipStatus → User
unfolding retain_others clears
with_relation self b status =
    if clears status
    then elim self.relations [
      | none ↦ self
      | some relations ↦ record self { relations = some (retain_others b relations) }
    ]
    else (let relation : Relationship = record { id = b; status = status } in
        elim self.relations [
          | none ↦ record self { relations = some (relation ∷ []) }
          | some relations ↦ record self {
            relations = some (retain_others b relations ++ relation ∷ []);
          }
        ])

-- The users of the reference driver.
abbrev pub Users : Type 0
Users = String → Option User

unfoldable pub put : Users → String → User → Users
put users id user k = if k == id then some user else users k

-- `pull_relationship` of the reference driver.
unfoldable pub pull_relationship : Users → String → String → Result Users
unfolding retain_others put
pull_relationship users user_id target_id = elim (users user_id) [
  | none ↦ err ErrorType.not_found
  | some user ↦ elim user.relations [
    | none ↦ ok users
    | some relations ↦
        ok
          (put users user_id (record user { relations = some (retain_others target_id relations) }))
  ]
]

-- `set_relationship` of the reference driver.
unfoldable pub store_relationship : Users → String → String → RelationshipStatus → Result Users
unfolding pull_relationship clears retain_others put
store_relationship users user_id target_id status =
    if clears status then pull_relationship users user_id target_id else elim (users user_id) [
      | none ↦ err ErrorType.not_found
      | some user ↦
          let relation : Relationship = record { id = target_id; status = status } in
          elim user.relations [
            | none ↦ ok (put users user_id (record user { relations = some (relation ∷ []) }))
            | some relations ↦ ok (
                put users user_id (record user {
                  relations = some (retain_others target_id relations ++ relation ∷ []);
                }))
          ]
    ]

-- The number of outgoing friend requests, as `add_friend` counts them.
unfoldable pub count_outgoing : List Relationship → ℕ
count_outgoing [] = 0
count_outgoing (x ∷ xs) =
    elim x.status [ RelationshipStatus.outgoing ↦ 1 | _ ↦ 0 ] + count_outgoing xs

unfoldable pub outgoing_requests : User → ℕ
unfolding count_outgoing
outgoing_requests self = elim self.relations [
  | none ↦ 0
  | some relations ↦ count_outgoing relations
]
