-- ===== src/Presence/Region.antt =====
-- The clean-up of a region, and the ID of a session.
use mathlib.Core.Option
use dawnchat_api.Prelude.{
  ℕ, ◌^◌, ◌<◌, bit_and, bit_or, Bool, not, refl, ◌&&◌, ◌||◌, String, none, some, List, [], ◌∷◌, ◌≡◌,
  ◌≢◌, inl, inr, sym, ap, ◌∙◌, ◌==◌, ==_iff, ==_ne, ==_refl, nat_eq, string_eq, Bool-cases, arith,
  if◌then◌else◌,
}
use dawnchat_api.Bits.{
  bit, complement, bit-and, bit-or, bit-complement, bit-one, bit_or-lt, bit_and-lt,
}
use dawnchat_api.Models.{contains}
use dawnchat_api.Presence.Redis.{Redis, IsServing}
use dawnchat_api.Presence.Sessions.{online_set, session_id, Setting, clear_region}
use dawnchat_api.Presence.Invariant.{IsEmpty, IsUser, IsPresence}
use dawnchat_api.Presence.Removal.{is_named, delete_all-holds}
use dawnchat_api.Presence.Leaving.{NamesUsers, delete_all-IsPresence}

module _ {S : Type 0} (redis : Redis S) (setting : Setting) {holds : S → String → String → Bool}
    (laws : IsServing redis holds) (apart : setting.region_key ≢ online_set) where
  deleted-IsPresence :
      (s s' : S)
      → ((j w : String) → holds s' j w ≡ (not (j == setting.region_key) && holds s j w))
      → IsPresence setting holds s
      → IsPresence setting holds s'
  deleted-IsPresence s s' kept h u other = (
    λ e v. own v ∙ (h u other).0 (sym online ∙ e) v,
    λ empty. online ∙ (h u other).1 (λ v. sym (own v) ∙ empty v),
  )
    where
      online : holds s' online_set u ≡ holds s online_set u
      online =
          ground
            (arith, kept online_set u, ==_ne online_set setting.region_key (λ e. apart (sym e)))

      own : (v : String) → holds s' u v ≡ holds s u v
      own v = ground (arith, kept u v, ==_ne u setting.region_key other.1)

  -- Each session that an entry names is taken from its user, and no other.
  abbrev pub AreCleared : List String → S → S → Type 0
  AreCleared entries s s' =
      (u w : String)
      → IsUser setting u
      → holds s' u w ≡ (not (is_named setting entries u w) && holds s u w)

  -- With a server that answers, a clean-up of the own region whose entries name users returns; it
  -- takes from each user the sessions that the entries name, and no other session, leaves the
  -- region empty, and keeps it so that the online users are those with a session.
  pub clear_region_clears :
      (s : S) (entries : List String)
      → redis.smembers s setting.region_key ≡ some entries
      → NamesUsers redis setting laws apart entries
      → IsPresence setting holds s
      → (s' : S) × (clear_region redis setting s none ≡ some s')
        × AreCleared entries s s'
        × IsEmpty holds s' setting.region_key
        × IsPresence setting holds s'
  unfolding clear_region contains
  clear_region_clears s [] listed named h =
      let (vs, e, all) = laws.lists s setting.region_key in
      (
        s,
        ground arith,
        (λ u w known. refl),
        (λ v. sym (all v) ∙ ap (λ o. contains (Option.get_or o []) v) (sym e ∙ listed)),
        h,
      )
  clear_region_clears s (x ∷ xs) listed named h =
      let (s1, e1, h1) = delete_all-IsPresence redis setting laws apart (x ∷ xs) s named h in
      let (s2, e2, kept) = laws.deletes s1 setting.region_key in
      (
        s2,
        rw (clear_region, listed, e1) e2,
        (λ u w known. ground (
          arith,
          kept u w,
          ==_ne u setting.region_key known.1,
          delete_all-holds redis setting laws (x ∷ xs) s s1 u w known e1,
        )),
        (λ v. ground (arith, kept setting.region_key v, ==_refl setting.region_key)),
        deleted-IsPresence s1 s2 kept h1,
      )

-- The ID of a session is a `u32` whose lowest bit is the flag of the call, and whose other bits are
-- those of the random `u32`.
pub session_id_bits :
    (random flags i : ℕ)
    → random < 2 ^ 32
    → flags < 2 ^ 8
    → i < 32
    → (session_id random flags < 2 ^ 32)
      × (bit (session_id random flags) i ≡ (if i == 0 then bit flags 0 else bit random i))
unfolding session_id
session_id_bits random flags i h f k = (
  bit_or-lt 32 (bit_and random (complement 32 1)) (bit_and flags 1) (bit_and-lt 32 random _ h)
      (bit_and-lt 32 flags 1 (omega arith)),
  bits,
)
  where
    parts :
        bit (bit_or (bit_and random (complement 32 1)) (bit_and flags 1)) i
        ≡ ((bit random i && not (i == 0)) || (bit flags i && (i == 0)))
    parts = ground (
      arith,
      bit-or i (bit_and random (complement 32 1)) (bit_and flags 1),
      bit-and i random (complement 32 1),
      bit-and i flags 1,
      bit-complement 32 i 1 (omega arith) k,
      bit-one i,
    )

    bits :
        bit (bit_or (bit_and random (complement 32 1)) (bit_and flags 1)) i
        ≡ (if i == 0 then bit flags 0 else bit random i)
    bits = elim (Bool-cases (i == 0)) [
      | inl lowest ↦ ground (arith, parts, ap (bit flags) ((==_iff i 0).0 lowest))
      | inr above ↦ ground (arith, parts)
    ]
