-- ===== src/DatabaseQuery/Highest.antt =====
-- Which of a member's roles decides a permission, in a server and in one of its channels.
use mathlib.Core.Option
use dawnchat_api.Prelude.{
  ℕ, Option, none, some, List, [], ◌∷◌, map, String, ◌≡◌, refl, inl, inr, arith, Bool-cases,
  Option-cases, if◌then◌else◌,
}
use dawnchat_api.Bits.{bit}
use dawnchat_api.Permissions.Value.{OverrideField, from_field}
use dawnchat_api.Permissions.Bitwise.{IsU64}
use dawnchat_api.Permissions.Override.{IsI64, from_field-IsOverride}
use dawnchat_api.Permissions.Sequence.{AllOverrides}
use dawnchat_api.Permissions.Calculate.{apply_all}
use dawnchat_api.Models.{Server, Role, Member, contains, get}
use dawnchat_api.DatabaseQuery.Roles.{
  Ranked, ranked_roles, ranked_permissions, member_roles, server_overrides, channel_overrides,
}
use dawnchat_api.DatabaseQuery.Order.{highest, as_highest, bit-apply-sorted}

-- The entries that are chosen.
abbrev pub chosen {ℓ} : {A : Type ℓ} → (A → Option Ranked) → List A → List Ranked
chosen f [] = []
chosen f (x ∷ xs) = elim (f x) [ none ↦ chosen f xs | some y ↦ y ∷ chosen f xs ]

-- A role of the server, if the member has it.
abbrev pub of_member : Member → String × Role → Option Ranked
of_member m (id, role) =
    if contains m.roles id then some (role.rank, from_field role.permissions) else none

-- A channel's override of a role, if the member has the role and the server knows it.
abbrev pub known_of_member : Server → Member → String × OverrideField → Option Ranked
known_of_member sv m (id, field) =
    if contains m.roles id
    then Option.map (λ role. (role.rank, from_field field)) (get sv.roles id)
    else none

-- The stored words of an override, of all roles, and of all overrides of a channel, are in range.
abbrev pub IsStored : OverrideField → Type 0
IsStored field = IsI64 field.a × IsI64 field.d

abbrev pub AreStored : List (String × Role) → Type 0
AreStored [] = Unit
AreStored ((id, role) ∷ roles) = IsStored role.permissions × AreStored roles

abbrev pub AllStored : List (String × OverrideField) → Type 0
AllStored [] = Unit
AllStored ((id, field) ∷ rest) = IsStored field × AllStored rest

ranked_roles-chosen :
    (m : Member) (roles : List (String × Role))
    → ranked_roles m.roles roles ≡ chosen (of_member m) roles
unfolding ranked_roles
ranked_roles-chosen m [] = refl
ranked_roles-chosen m ((id, role) ∷ roles) = ground (arith, ranked_roles-chosen m roles)

ranked_permissions-chosen :
    (sv : Server) (m : Member) (rest : List (String × OverrideField))
    → ranked_permissions m.roles sv.roles rest ≡ chosen (known_of_member sv m) rest
unfolding ranked_permissions
ranked_permissions-chosen sv m [] = refl
ranked_permissions-chosen sv m ((id, field) ∷ rest) = elim (Option-cases (get sv.roles id)) [
  | inl unknown ↦ ground (arith, ranked_permissions-chosen sv m rest)
  | inr (role, found) ↦ ground (arith, ranked_permissions-chosen sv m rest)
]

chosen_roles-AllOverrides :
    (m : Member) (roles : List (String × Role))
    → AreStored roles
    → AllOverrides (map (λ r. r.1) (chosen (of_member m) roles))
chosen_roles-AllOverrides m [] h = tt
chosen_roles-AllOverrides m ((id, role) ∷ roles) h = elim (Bool-cases (contains m.roles id)) [
  | inl held ↦
      let more : chosen (of_member m) ((id, role) ∷ roles)
          ≡ (role.rank, from_field role.permissions) ∷ chosen (of_member m) roles =
        ground arith in
      rw more
        (from_field-IsOverride role.permissions h.0.0 h.0.1, chosen_roles-AllOverrides m roles h.1)
  | inr lacking ↦
      let same : chosen (of_member m) ((id, role) ∷ roles) ≡ chosen (of_member m) roles =
        ground arith in
      rw same (chosen_roles-AllOverrides m roles h.1)
]

chosen_permissions-AllOverrides :
    (sv : Server) (m : Member) (rest : List (String × OverrideField))
    → AllStored rest
    → AllOverrides (map (λ r. r.1) (chosen (known_of_member sv m) rest))
chosen_permissions-AllOverrides sv m [] h = tt
chosen_permissions-AllOverrides sv m ((id, field) ∷ rest) h =
    let all = chosen (known_of_member sv m) ((id, field) ∷ rest) in
    let kept = chosen_permissions-AllOverrides sv m rest h.1 in
    elim (Bool-cases (contains m.roles id)) [
      | inr lacking ↦
          let same : all ≡ chosen (known_of_member sv m) rest = ground arith in rw same kept
      | inl held ↦ elim (Option-cases (get sv.roles id)) [
        | inl unknown ↦
            let same : all ≡ chosen (known_of_member sv m) rest = ground arith in rw same kept
        | inr (role, found) ↦
            let more : all ≡ (role.rank, from_field field) ∷ chosen (known_of_member sv m) rest =
              ground arith in
            rw more (from_field-IsOverride field h.0.0 h.0.1, kept)
      ]
    ]

-- After the overrides of a member's roles each permission is as the highest role says that says
-- something of it, a denial beating an allowance within one role, or as it was before if none does;
-- of two roles of one rank the later one counts. So it is for the server's roles that the member
-- has, and so for a channel's overrides of those of them that the server knows. (All words are in
-- range.)
pub highest_role_decides :
    (sv : Server) (m : Member) (permissions : List (String × OverrideField)) (p i : ℕ)
    → IsU64 p
    → AreStored sv.roles
    → AllStored permissions
    → (bit (apply_all p (server_overrides sv (some m))) i
        ≡ as_highest (highest (chosen (of_member m) sv.roles) i) i (bit p i))
      × (bit (apply_all p (channel_overrides permissions sv (some m))) i
          ≡ as_highest (highest (chosen (known_of_member sv m) permissions) i) i (bit p i))
unfolding server_overrides channel_overrides member_roles
highest_role_decides sv m permissions p i h roles all = (
  rw (ranked_roles-chosen m sv.roles) (
      bit-apply-sorted (chosen (of_member m) sv.roles) p i h
        (chosen_roles-AllOverrides m sv.roles roles)),
  rw (ranked_permissions-chosen sv m permissions) (
      bit-apply-sorted (chosen (known_of_member sv m) permissions) p i h
        (chosen_permissions-AllOverrides sv m permissions all)),
)
