-- ===== src/Users/Apply.antt =====
-- `apply_relationship` on two stored users.
use dawnchat_api.Prelude.{some, List, [], ◌∷◌, ◌++◌, ◌≡◌, refl, sym, ◌∙◌, ap, ◌≢◌, arith}
use mathlib.Core.List.{append_assoc}
use dawnchat_api.Errors.{ok}
use dawnchat_api.Models.{RelationshipStatus}
use dawnchat_api.Users.Relations.{relationship_with, with_relation}
use dawnchat_api.Users.Scene.{
  Scene, Event, user_relationship, set_remote, set_local, apply_relationship,
}
use dawnchat_api.Users.Lookup.{
  stored, with_relation-id, relationship_with_self, store_relationship-Stores,
}

-- Two different users, each stored as it is in memory.
pub record InSync (s : Scene) : Type 0 where
  pub distinct : s.self.id ≢ s.target.id
  pub self_stored : s.users s.self.id ≡ some s.self
  pub target_stored : s.users s.target.id ≡ some s.target

-- The same two users, with new relationships.
pub record Related (s s' : Scene) (local remote : RelationshipStatus) : Type 0 where
  pub in_sync : InSync s'
  pub same_self : s'.self.id ≡ s.self.id
  pub same_target : s'.target.id ≡ s.target.id
  pub local_is : relationship_with s'.self s'.target.id ≡ local
  pub remote_is : relationship_with s'.target s'.self.id ≡ remote

record RemoteSet (s s' : Scene) (remote : RelationshipStatus) : Type 0 where
  in_sync : InSync s'
  self_kept : s'.self ≡ s.self
  same_target : s'.target.id ≡ s.target.id
  remote_is : relationship_with s'.target s'.self.id ≡ stored remote
  quiet : s'.events ≡ s.events

set_remote-RemoteSet :
    (s : Scene) (remote : RelationshipStatus)
    → InSync s
    → (s' : Scene) × (set_remote remote s ≡ (ok tt, s')) × RemoteSet s s' remote
unfolding set_remote
set_remote-RemoteSet s remote h =
    let (users, written, target, others) =
      store_relationship-Stores s.users s.target s.self.id remote h.target_stored in
    let t = with_relation s.target s.self.id remote in
    let same : t.id ≡ s.target.id = with_relation-id s.target s.self.id remote in
    (
      record s { users = users; target = t },
      ground arith,
      record {
        in_sync = record {
          distinct = λ e. h.distinct (e ∙ same);
          self_stored = others s.self.id h.distinct ∙ h.self_stored;
          target_stored = ap users same ∙ target;
        };
        self_kept = refl;
        same_target = same;
        remote_is = relationship_with_self s.target s.self.id remote (λ e. h.distinct (sym e));
        quiet = refl;
      },
    )

set_local-Related :
    (s : Scene) (local remote : RelationshipStatus)
    → InSync s
    → relationship_with s.target s.self.id ≡ remote
    → (s' : Scene) × (set_local local s ≡ (ok tt, s'))
      × Related s s' (stored local) remote
      × (s'.events ≡ s.events)
unfolding set_local
set_local-Related s local remote h r =
    let (users, written, self, others) =
      store_relationship-Stores s.users s.self s.target.id local h.self_stored in
    let u = with_relation s.self s.target.id local in
    let same : u.id ≡ s.self.id = with_relation-id s.self s.target.id local in
    (
      record s { users = users; self = u },
      ground arith,
      record {
        in_sync = record {
          distinct = λ e. h.distinct (sym same ∙ e);
          self_stored = ap users same ∙ self;
          target_stored = others s.target.id (λ e. h.distinct (sym e)) ∙ h.target_stored;
        };
        same_self = same;
        same_target = refl;
        local_is = relationship_with_self s.self s.target.id local h.distinct;
        remote_is = ap (relationship_with s.target) same ∙ r;
      },
      refl,
    )

-- The two events, to each of the two users about the other.
abbrev pub notices : Scene → List Event
notices s =
    user_relationship s.target.id s.target.id s.self
    ∷ user_relationship s.self.id s.self.id s.target
    ∷ []

-- Both relationships are set, in memory and in the store, and then both users are told.
pub apply_relationship-Related :
    (s : Scene) (local remote : RelationshipStatus)
    → InSync s
    → (s' : Scene) × (apply_relationship local remote s ≡ (ok tt, s'))
      × Related s s' (stored local) (stored remote)
      × (s'.events ≡ s.events ++ notices s')
unfolding apply_relationship
apply_relationship-Related s local remote h =
    let (s1, e1, r) = set_remote-RemoteSet s remote h in
    let (s2, e2, l, quiet) = set_local-Related s1 local (stored remote) r.in_sync r.remote_is in
    let told : List Event =
      (s2.events ++ user_relationship s2.target.id s2.target.id s2.self ∷ [])
      ++ user_relationship s2.self.id s2.self.id s2.target ∷ [] in
    (
      record s2 { events = told },
      ground arith,
      record {
        in_sync = record {
          distinct = l.in_sync.distinct;
          self_stored = l.in_sync.self_stored;
          target_stored = l.in_sync.target_stored;
        };
        same_self = l.same_self ∙ ap (λ u. u.id) r.self_kept;
        same_target = l.same_target ∙ r.same_target;
        local_is = l.local_is;
        remote_is = l.remote_is;
      },
      rw (append_assoc, quiet, r.quiet) refl,
    )
