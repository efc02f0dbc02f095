-- ===== src/Roles/Ordering.antt =====
-- The ranks of roles after they are ordered anew, and whose rank a member can change.
use dawnchat_api.Prelude.{
  ℕ, suc, ◌+◌, true, false, Option, none, some, List, [], ◌∷◌, String, ◌≡◌, refl, sym, ap, ◌∙◌, inl,
  inr, arith, Bool-cases, Option-cases, ◌==◌, ==_iff, string_eq, nat_eq,
}
use dawnchat_api.Errors.{ok}
use dawnchat_api.Permissions.Value.{ℤ, pos}
use dawnchat_api.Models.{Server, Role, get, contains}
use dawnchat_api.Messages.Store.{modify}
use dawnchat_api.Messages.Reacting.{get-modify}
use dawnchat_api.Messages.ReplyLists.{IsDistinct}
use dawnchat_api.Roles.Store.{World, set_ranks, set_role_ordering}
use dawnchat_api.Roles.Routes.{
  position, same_position, is_superior, moves_superior, all_ranked, ids_of,
}

get-modify_other :
    {V : Type 0} (f : V → V) (j k : String) (m : List (String × V))
    → (k == j) ≡ false
    → get (modify f k m) j ≡ get m j
unfolding get modify
get-modify_other f j k [] h = refl
get-modify_other f j k ((i, x) ∷ m) h = elim (Bool-cases (i == k)) [
  | inl same ↦ ground (arith, ==_iff i k)
  | inr other ↦ ground (arith, get-modify_other f j k m h)
]

-- An id that is not in the order keeps its role.
set_ranks-others :
    (rank : ℕ) (ids : List String) (roles after : List (String × Role)) (id : String)
    → contains ids id ≡ false
    → set_ranks rank ids roles ≡ some after
    → get after id ≡ get roles id
unfolding set_ranks contains
set_ranks-others rank [] roles after id h e = ground arith
set_ranks-others rank (i ∷ ids) roles after id h e = elim (Option-cases (get roles i)) [
  | inl lost ↦ ground arith
  | inr (role, found) ↦
      let ranked = modify (λ r. record r { rank = pos rank }) i roles in
      set_ranks-others (suc rank) ids ranked after id (ground arith) (ground arith)
      ∙ get-modify_other (λ r. record r { rank = pos rank }) id i roles
          (ground (arith, ==_iff i id, ==_iff id i))
]

position-contains :
    (ids : List String) (id : String) (n : ℕ) → position ids id ≡ some n → contains ids id ≡ true
unfolding position contains
position-contains [] id n e = ground arith
position-contains (i ∷ ids) id n e = elim (Bool-cases (id == i)) [
  | inl same ↦ ground arith
  | inr other ↦ elim (Option-cases (position ids id)) [
    | inl lost ↦ ground arith
    | inr (m, found) ↦ ground (arith, position-contains ids id m found)
  ]
]

-- Each role gets as its rank the place of its id in the order.
pub set_ranks-position :
    (rank n : ℕ) (ids : List String) (roles after : List (String × Role)) (id : String)
    → IsDistinct ids
    → set_ranks rank ids roles ≡ some after
    → position ids id ≡ some n
    → (role : Role) × (get after id ≡ some role) × (role.rank ≡ pos (rank + n))
unfolding set_ranks position
set_ranks-position rank n [] roles after id d e at = ground arith
set_ranks-position rank n (i ∷ ids) roles after id d e at = elim (Option-cases (get roles i)) [
  | inl lost ↦ ground arith
  | inr (role, found) ↦
      let change : Role → Role = λ r. record r { rank = pos rank } in
      let ranked = modify change i roles in
      elim (Bool-cases (id == i)) [
        | inl same ↦
            let eq : id ≡ i = (==_iff id i).0 same in
            (
              change role,
              set_ranks-others (suc rank) ids ranked after id (ap (contains ids) eq ∙ d.0)
                    (ground arith)
                  ∙ ap (get ranked) eq
                  ∙ get-modify change i roles role found,
              ap pos (ground arith),
            )
        | inr other ↦ elim (Option-cases (position ids id)) [
          | inl lost ↦ ground arith
          | inr (m, there) ↦
              let (role', kept, is) =
                set_ranks-position (suc rank) m ids ranked after id d.1 (ground arith) there in
              (role', kept, is ∙ ap pos (ground arith))
        ]
      ]
]

pub contains-position :
    (ids : List String) (id : String)
    → contains ids id ≡ true
    → (n : ℕ) × (position ids id ≡ some n)
unfolding contains position
contains-position [] id h = ground arith
contains-position (i ∷ ids) id h = elim (Bool-cases (id == i)) [
  | inl same ↦ (0, ground arith)
  | inr other ↦ let (n, there) = contains-position ids id (ground arith) in (suc n, ground arith)
]

pub ranked-contains :
    (roles : List (String × Role)) (ranks : List String) (id : String)
    → all_ranked roles ranks ≡ true
    → contains (ids_of roles) id ≡ true
    → contains ranks id ≡ true
unfolding all_ranked contains
ranked-contains [] ranks id h c = ground arith
ranked-contains ((j, role) ∷ roles) ranks id h c = elim (Bool-cases (id == j)) [
  | inl same ↦ ap (contains ranks) ((==_iff id j).0 same) ∙ ground arith
  | inr other ↦ ranked-contains roles ranks id (ground arith) (ground arith)
]

pub get-contains :
    (roles : List (String × Role)) (id : String) (role : Role)
    → get roles id ≡ some role
    → contains (ids_of roles) id ≡ true
unfolding get contains
get-contains [] id role h = ground arith
get-contains ((j, r) ∷ roles) id role h =
    ground (arith, ==_iff id j, ==_iff j id, get-contains roles id role)

same_position-eq : (a b : Option ℕ) → same_position a b ≡ true → a ≡ b
same_position-eq none none h = refl
same_position-eq none (some b) h = ground arith
same_position-eq (some a) none h = ground arith
same_position-eq (some a) (some b) h = ap some ((==_iff a b).0 h)

pub superior_unmoved :
    (rank : Option ℤ) (old new : List String) (roles : List (String × Role)) (id : String)
    (role : Role)
    → moves_superior rank old new roles ≡ false
    → get roles id ≡ some role
    → is_superior rank role ≡ true
    → position old id ≡ position new id
unfolding moves_superior get
superior_unmoved rank old new [] id role m h s = ground arith
superior_unmoved rank old new ((j, r) ∷ roles) id role m h s = elim (Bool-cases (j == id)) [
  | inl same ↦
      let eq : j ≡ id = (==_iff j id).0 same in
      let stays : same_position (position old j) (position new j) ≡ true = ground arith in
      ap (position old) (sym eq)
      ∙ same_position-eq (position old j) (position new j) stays
      ∙ ap (position new) eq
  | inr other ↦ superior_unmoved rank old new roles id role (ground arith) (ground arith) s
]

-- The role that the server of the world keeps under an id has this rank.
abbrev pub KeepsRank : World → String → String → ℕ → Type 0
KeepsRank w server_id role_id n =
    (server : Server) × (role : Role) × (get w.servers server_id ≡ some server)
    × (get server.roles role_id ≡ some role)
    × (role.rank ≡ pos n)

pub set_role_ordering-KeepsRank :
    (server server' : Server) (ranks : List String) (id : String) (n : ℕ) (w w' : World)
    → IsDistinct ranks
    → position ranks id ≡ some n
    → set_role_ordering server ranks w ≡ some (ok server', w')
    → KeepsRank w' server.id id n
unfolding set_role_ordering
set_role_ordering-KeepsRank server server' ranks id n w w' d there e =
    elim (Option-cases (set_ranks 0 ranks server.roles)) [
      | inl panic ↦ ground arith
      | inr (roles, ranked) ↦ elim (Option-cases (get w.servers server.id)) [
        | inl lost ↦ ground arith
        | inr (stored, found) ↦
            let change : Server → Server = λ s. record s { roles = roles } in
            let (role, kept, is) =
              set_ranks-position 0 n ranks server.roles roles id d ranked there in
            let servers : w'.servers ≡ modify change server.id w.servers = ground arith in
            (
              change stored,
              role,
              ap (λ m. get m server.id) servers
                  ∙ get-modify change server.id w.servers stored found,
              kept,
              is ∙ ap pos (omega arith),
            )
      ]
    ]
