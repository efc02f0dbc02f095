-- ===== src/Roles/Reordering.antt =====
-- What a member who does not own the server can do to the order of its roles.
use dawnchat_api.Prelude.{
  ℕ, suc, true, false, not, ◌&&◌, ◌||◌, Option, none, some, List, [], ◌∷◌, String, ◌≡◌, ◌≢◌, refl,
  ap, ◌∙◌, inl, inr, arith, Bool-cases, Option-cases, ◌==◌, ==_iff, string_eq, nat_eq,
}
use dawnchat_api.Errors.{Result, ok, err, Result-cases}
use dawnchat_api.Permissions.Flags.{ChannelPermission}
use dawnchat_api.Permissions.Value.{PermissionValue, ℤ}
use dawnchat_api.Models.{User, Server, Role, get, contains, length}
use dawnchat_api.Messages.ReplyLists.{IsDistinct}
use dawnchat_api.Roles.Store.{World, ordered_roles, set_role_ordering}
use dawnchat_api.Roles.Routes.{
  Context, authorise, position, is_superior, moves_superior, all_ranked, ids_of, edit_role_ranks_of,
  after_ordering,
}
use dawnchat_api.Roles.Guards.{synced_world}
use dawnchat_api.Roles.Places.{IsDistinct-of_IsWithin}
use dawnchat_api.Roles.Ordering.{
  KeepsRank, superior_unmoved, ranked-contains, contains-position, get-contains,
  set_role_ordering-KeepsRank,
}

length-ids : (roles : List (String × Role)) → length (ids_of roles) ≡ length roles
length-ids [] = refl
length-ids ((j, role) ∷ roles) = ap suc (length-ids roles)

module _ (ctx : Context) (user : User) (server server' : Server) (ranks : List String)
    (w w' : World) where
  finished :
      (done : Option (Result Server × World))
      → after_ordering ctx done ≡ some (ok server', w')
      → done ≡ some (ok server', w')
  unfolding after_ordering
  finished none e = ground arith
  finished (some (err _, w1)) e = ground arith
  finished (some (ok changed, w1)) e =
      let (answer, world) = synced_world ctx changed none changed w1 w' server' e in
      rw (answer, world)

  reordered :
      edit_role_ranks_of ctx user server ranks w ≡ some (ok server', w')
      → (held : PermissionValue) × (rank : Option ℤ) × (authorise ctx user server
            ChannelPermission.manage_role
          ≡ some (ok (held, rank)))
        × ((length ranks == length server.roles) ≡ true)
        × (all_ranked server.roles ranks ≡ true)
        × ((not (server.owner == user.id)
              && moves_superior rank (ids_of (ordered_roles server.roles)) ranks server.roles)
            ≡ false)
        × (set_role_ordering server ranks w ≡ some (ok server', w'))
  unfolding edit_role_ranks_of
  reordered e = elim (Option-cases (authorise ctx user server ChannelPermission.manage_role)) [
    | inl stuck ↦ ground arith
    | inr (answer, asked) ↦ elim (Result-cases answer) [
      | inl (_, refused) ↦ ground arith
      | inr ((held, rank), granted) ↦
          elim (Bool-cases
            (not (length ranks == length server.roles) || not (all_ranked server.roles ranks))) [
              | inl incomplete ↦ ground arith
              | inr complete ↦
                  elim (Bool-cases (
                    not (server.owner == user.id)
                    && moves_superior rank (ids_of (ordered_roles server.roles)) ranks
                        server.roles)) [
                          | inl elevated ↦ ground arith
                          | inr permitted ↦ (
                            held,
                            rank,
                            asked ∙ ap some granted,
                            ground arith,
                            ground arith,
                            permitted,
                            finished (set_role_ordering server ranks w) (ground arith),
                          )
                        ]
            ]
    ]
  ]

  -- A member who may manage roles and does not own the server, and to whom the route answers with
  -- success, has not moved the roles that are not below the member's highest one (all of them, without
  -- a membership): each of them gets as its rank, in the stored server, its place among the roles
  -- as they were ordered before. The map of roles has no key twice.
  pub superiors_keep_place :
      (id : String) (role : Role) (held : PermissionValue) (rank : Option ℤ)
      → IsDistinct (ids_of server.roles)
      → edit_role_ranks_of ctx user server ranks w ≡ some (ok server', w')
      → server.owner ≢ user.id
      → get server.roles id ≡ some role
      → authorise ctx user server ChannelPermission.manage_role ≡ some (ok (held, rank))
      → is_superior rank role ≡ true
      → (n : ℕ) × (position (ids_of (ordered_roles server.roles)) id ≡ some n)
        × KeepsRank w' server.id id n
  superiors_keep_place id role held rank d e other found known superior =
      let (held', rank', asked, long, all, still, written) = reordered e in
      let same : rank' ≡ rank = ground arith in
      let unmoved : moves_superior rank' (ids_of (ordered_roles server.roles)) ranks server.roles
          ≡ false =
        ground (arith, ==_iff server.owner user.id) in
      let within : (x : String)
          → contains (ids_of server.roles) x ≡ true
          → contains ranks x ≡ true =
        λ x h. ranked-contains server.roles ranks x all h in
      let listed = within id (get-contains server.roles id role found) in
      let (n, there) = contains-position ranks id listed in
      let lengths : length ranks ≡ length server.roles =
        (==_iff (length ranks) (length server.roles)).0 long in
      let ids = length-ids server.roles in
      let distinct : IsDistinct ranks =
        IsDistinct-of_IsWithin (ids_of server.roles) ranks d within (omega arith) in
      (
        n,
        superior_unmoved rank' (ids_of (ordered_roles server.roles)) ranks server.roles id role
              unmoved found (ap (λ r. is_superior r role) same ∙ superior)
            ∙ there,
        set_role_ordering-KeepsRank server server' ranks id n w w' distinct there written,
      )
