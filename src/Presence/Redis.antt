-- ===== src/Presence/Redis.antt =====
-- The commands of Redis that presence uses, and what Redis documents of them
-- (crates/core/presence/src/operations.rs calls them). All values are the strings that are sent.
use dawnchat_api.Prelude.{
  ℕ, Bool, false, not, ◌&&◌, ◌||◌, String, Option, none, some, List, ◌≡◌, ◌↔◌, ◌==◌, string_eq,
}
use dawnchat_api.Models.{contains}

-- A store `S` of sets by their keys; `none` is an error of the command.
pub record Redis (S : Type 0) : Type 0 where
  pub sadd : S → String → String → Option S
  pub srem : S → String → String → Option S
  pub scard : S → String → Option ℕ
  pub smembers : S → String → Option (List String)
  pub exists_key : S → String → Option Bool
  pub del : S → String → Option S

-- The server answers every command, and the sets hold what was added and not removed: `holds s k v`
-- says that in the store `s` the set with the key `k` has the element `v`. An empty set has no key.
pub record IsServing {S : Type 0} (redis : Redis S) (holds : S → String → String → Bool)
    : Type 0 where
  pub adds :
      (s : S) (k v : String)
      → (s' : S) × (redis.sadd s k v ≡ some s')
        × ((j w : String) → holds s' j w ≡ ((j == k && w == v) || holds s j w))
  pub removes :
      (s : S) (k v : String)
      → (s' : S) × (redis.srem s k v ≡ some s')
        × ((j w : String) → holds s' j w ≡ (not (j == k && w == v) && holds s j w))
  pub counts :
      (s : S) (k : String)
      → (n : ℕ) × (redis.scard s k ≡ some n) × ((n ≡ 0) ↔ ((v : String) → holds s k v ≡ false))
  pub lists :
      (s : S) (k : String)
      → (vs : List String) × (redis.smembers s k ≡ some vs)
        × ((v : String) → contains vs v ≡ holds s k v)
  pub knows :
      (s : S) (k : String)
      → (b : Bool) × (redis.exists_key s k ≡ some b)
        × ((b ≡ false) ↔ ((v : String) → holds s k v ≡ false))
  pub deletes :
      (s : S) (k : String)
      → (s' : S) × (redis.del s k ≡ some s')
        × ((j w : String) → holds s' j w ≡ (not (j == k) && holds s j w))

module _ {S : Type 0} (redis : Redis S) where
  -- `__add_to_set_string` and `__add_to_set_u32`: an error is not looked at.
  unfoldable pub add_to_set : S → String → String → S
  add_to_set s key value = elim (redis.sadd s key value) [ none ↦ s | some s' ↦ s' ]

  -- `__remove_from_set_string` and `__remove_from_set_u32`.
  unfoldable pub remove_from_set : S → String → String → S
  remove_from_set s key value = elim (redis.srem s key value) [ none ↦ s | some s' ↦ s' ]

  module _ {holds : S → String → String → Bool} (laws : IsServing redis holds) where
    pub add_to_set-holds :
        (s : S) (k v j w : String)
        → holds (add_to_set s k v) j w ≡ ((j == k && w == v) || holds s j w)
    unfolding add_to_set
    add_to_set-holds s k v j w = let (s', e, h) = laws.adds s k v in rw (e, add_to_set) (h j w)

    pub remove_from_set-holds :
        (s : S) (k v j w : String)
        → holds (remove_from_set s k v) j w ≡ (not (j == k && w == v) && holds s j w)
    unfolding remove_from_set
    remove_from_set-holds s k v j w =
        let (s', e, h) = laws.removes s k v in rw (e, remove_from_set) (h j w)
