-- ===== src/Subscriptions/Flush.antt =====
-- What a flush of the queue does to the subscriptions.
use dawnchat_api.Prelude.{
  Bool, true, false, not, ◌&&◌, ◌||◌, String, some, List, [], ◌∷◌, ◌++◌, ◌≡◌, refl, ◌≢◌, ◌∙◌, ◌==◌,
  ==_iff, ==_refl, string_eq, Bool-cases, inl, inr, arith,
}
use dawnchat_api.Models.{contains}
use dawnchat_api.Subscriptions.Queue.{
  SubscriptionStateChange, Topics, with_topic, without_topic, State, queue_insertion,
  insert_subscription, queue_removal, remove_subscription, ServerChange, change_all, insert_all,
  remove_all, flushed, flush, apply_state, follow,
}

insert_all-contains :
    (ids : List String) (subscribed : Topics) (k : String)
    → insert_all subscribed ids k ≡ (contains ids k || subscribed k)
unfolding insert_all with_topic contains
insert_all-contains [] subscribed k = refl
insert_all-contains (id ∷ ids) subscribed k =
    ground (arith, insert_all-contains ids (with_topic subscribed id) k)

remove_all-contains :
    (ids : List String) (subscribed : Topics) (k : String)
    → remove_all subscribed ids k ≡ (not (contains ids k) && subscribed k)
unfolding remove_all without_topic contains
remove_all-contains [] subscribed k = refl
remove_all-contains (id ∷ ids) subscribed k =
    ground (arith, remove_all-contains ids (without_topic subscribed id) k)

contains-append :
    (xs : List String) (x k : String) → contains (xs ++ x ∷ []) k ≡ (contains xs k || k == x)
unfolding contains
contains-append [] x k = ground arith
contains-append (y ∷ xs) x k = ground (arith, contains-append xs x k)

-- The topics are sorted by `side`: what is queued for addition is on the one side and subscribed,
-- what is queued for removal is on the other and not subscribed; no reset is queued; and the queue
-- leads from the topics `r` at the last flush to the subscriptions.
abbrev pub IsSorted : (String → Bool) → Topics → SubscriptionStateChange → Topics → Type 0
IsSorted side r SubscriptionStateChange.nothing t = (k : String) → t k ≡ r k
IsSorted side r SubscriptionStateChange.reset t = ⊥
IsSorted side r (SubscriptionStateChange.change add remove) t =
    (k : String)
    → (contains add k ≡ true → (side k ≡ true) × (t k ≡ true))
      × (contains remove k ≡ true → (side k ≡ false) × (t k ≡ false))
      × (t k ≡ (contains add k || (not (contains remove k) && r k)))

flushed-sorted :
    (side : String → Bool) (r : Topics) (q : SubscriptionStateChange) (t : Topics)
    → IsSorted side r q t
    → (k : String) → (flushed q t k ≡ t k) × (follow q (flushed q t) r k ≡ t k)
unfolding flushed follow
flushed-sorted side r SubscriptionStateChange.nothing t h k = (refl, ground (arith, h k))
flushed-sorted side r SubscriptionStateChange.reset t h k = absurd h
flushed-sorted side r (SubscriptionStateChange.change add remove) t h k = (
  ground (
    arith,
    remove_all-contains remove (insert_all t add) k,
    insert_all-contains add t k,
    (h k).0,
    (h k).1,
  ),
  ground (
    arith,
    insert_all-contains add (remove_all r remove) k,
    remove_all-contains remove r k,
    (h k).2,
  ),
)

insertion-IsSorted :
    (side : String → Bool) (r : Topics) (q : SubscriptionStateChange) (t : Topics) (id : String)
    → side id ≡ true
    → IsSorted side r q t
    → IsSorted side r (queue_insertion q id) (with_topic t id)
unfolding queue_insertion with_topic contains
insertion-IsSorted side r SubscriptionStateChange.nothing t id d h =
    λ k. (λ e. ground (arith, ==_iff k id), λ e. cc, ground (arith, h k))
insertion-IsSorted side r SubscriptionStateChange.reset t id d h = absurd h
insertion-IsSorted side r (SubscriptionStateChange.change add remove) t id d h = λ k. (
  λ e. ground (arith, contains-append add id k, ==_iff k id, (h k).0),
  λ e. ground (arith, ==_iff k id, (h k).1 e),
  ground (arith, contains-append add id k, (h k).2),
)

removal-IsSorted :
    (side : String → Bool) (r : Topics) (q : SubscriptionStateChange) (t : Topics) (id : String)
    → side id ≡ false
    → IsSorted side r q t
    → (q' : SubscriptionStateChange) × (queue_removal q id ≡ some q')
      × IsSorted side r q' (without_topic t id)
unfolding queue_removal without_topic contains
removal-IsSorted side r SubscriptionStateChange.nothing t id d h =
    (_, refl, λ k. (λ e. cc, λ e. ground (arith, ==_iff k id), ground (arith, h k)))
removal-IsSorted side r SubscriptionStateChange.reset t id d h = absurd h
removal-IsSorted side r (SubscriptionStateChange.change add remove) t id d h = (
  _,
  refl,
  λ k. (
    λ e. ground (arith, ==_iff k id, (h k).0 e),
    λ e. ground (arith, contains-append remove id k, ==_iff k id, (h k).1),
    ground (arith, contains-append remove id k, ==_iff k id, (h k).0, (h k).2),
  ),
)

-- Each topic is only subscribed to, or only unsubscribed from.
abbrev pub AllSorted : (String → Bool) → List ServerChange → Type 0
AllSorted side [] = Unit
AllSorted side (ServerChange.subscribe k ∷ cs) = (side k ≡ true) × AllSorted side cs
AllSorted side (ServerChange.unsubscribe k ∷ cs) = (side k ≡ false) × AllSorted side cs

change_all-IsSorted :
    (side : String → Bool) (r : Topics) (cs : List ServerChange) (s : State)
    → AllSorted side cs
    → IsSorted side r s.state s.subscribed
    → (s' : State) × (change_all s cs ≡ some s')
      × IsSorted side r s'.state s'.subscribed
      × (s'.is_bot ≡ s.is_bot)
unfolding change_all insert_subscription remove_subscription
change_all-IsSorted side r [] s d h = (s, refl, h, refl)
change_all-IsSorted side r (ServerChange.subscribe k ∷ cs) s d h =
    elim (Bool-cases (s.subscribed k)) [
      | inl known ↦ rw known (change_all-IsSorted side r cs s d.1 h)
      | inr new ↦ rw new (
          change_all-IsSorted side r cs
            (record s { state = queue_insertion s.state k; subscribed = with_topic s.subscribed k })
            d.1 (insertion-IsSorted side r s.state s.subscribed k d.0 h))
    ]
change_all-IsSorted side r (ServerChange.unsubscribe k ∷ cs) s d h =
    elim (Bool-cases (s.subscribed k)) [
      | inl known ↦
          let (q, e, h') = removal-IsSorted side r s.state s.subscribed k d.0 h in
          let removed : State = record s { state = q; subscribed = without_topic s.subscribed k } in
          let (s', e', sorted, same) = change_all-IsSorted side r cs removed d.1 h' in
          (s', ground arith, sorted, same)
      | inr gone ↦
          let (s', e', sorted, same) = change_all-IsSorted side r cs s d.1 h in
          (s', ground arith, sorted, same)
    ]

-- Changes to subscriptions since the last flush, of which none subscribes to a topic that another one
-- unsubscribes from, do not panic; the next flush leaves the subscriptions as the changes left them
-- and empties the queue, and the websocket's loop, which was subscribed in Redis to the topics of the
-- last flush, is then subscribed to the same topics. (The connection is that of a bot, so that the
-- flush itself makes no changes.)
pub flush_keeps_sorted :
    (side : String → Bool) (cs : List ServerChange) (s : State)
    → s.state ≡ SubscriptionStateChange.nothing
    → s.is_bot ≡ true
    → AllSorted side cs
    → (s1 : State) × (s2 : State) × (c : SubscriptionStateChange) × (change_all s cs ≡ some s1)
      × (apply_state [] s1 ≡ some (c, s2))
      × ((k : String)
          → (s2.subscribed k ≡ s1.subscribed k)
            × (follow c s2.subscribed s.subscribed k ≡ s1.subscribed k))
      × (s2.state ≡ SubscriptionStateChange.nothing)
unfolding apply_state flush
flush_keeps_sorted side cs s fresh bot sorted =
    let start : IsSorted side s.subscribed s.state s.subscribed = rw fresh (λ k. refl) in
    let (s1, e, h, same) = change_all-IsSorted side s.subscribed cs s sorted start in
    (
      s1,
      (flush s1).1,
      s1.state,
      e,
      rw (same, bot) refl,
      flushed-sorted side s.subscribed s1.state s1.subscribed h,
      refl,
    )

queued_both :
    (q : SubscriptionStateChange) (id : String)
    → q ≢ SubscriptionStateChange.reset
    → (q' : SubscriptionStateChange) × (add : List String) × (remove : List String) × (queue_removal
          q id
        ≡ some q')
      × (queue_insertion q' id ≡ SubscriptionStateChange.change add remove)
      × (contains remove id ≡ true)
      × (contains add id ≡ true)
unfolding queue_removal queue_insertion contains
queued_both SubscriptionStateChange.nothing id h =
    (_, _, _, refl, refl, ground (arith, ==_refl id), ground (arith, ==_refl id))
queued_both SubscriptionStateChange.reset id h = absurd (h refl)
queued_both (SubscriptionStateChange.change add remove) id h = (
  _,
  _,
  _,
  refl,
  refl,
  ground (arith, contains-append remove id id, ==_refl id),
  ground (arith, contains-append add id id, ==_refl id),
)

-- A topic that is removed and inserted again before the next flush is lost: though it was inserted
-- last and is among the subscriptions before the flush, it is not after it, while the websocket's
-- loop is then subscribed to it in Redis. (It was subscribed, and
-- no reset is queued; the connection is that of a bot.)
pub reinserted_lost :
    (s : State) (id : String)
    → s.subscribed id ≡ true
    → s.state ≢ SubscriptionStateChange.reset
    → s.is_bot ≡ true
    → (s1 : State) × (s2 : State) × (c : SubscriptionStateChange) × (remove_subscription s id
        ≡ some s1)
      × ((insert_subscription s1 id).subscribed id ≡ true)
      × (apply_state [] (insert_subscription s1 id) ≡ some (c, s2))
      × (s2.subscribed id ≡ false)
      × ((topics : Topics) → follow c s2.subscribed topics id ≡ true)
unfolding remove_subscription apply_state flush flushed follow
reinserted_lost s id known steady bot =
    let (q, add, remove, removed, inserted, listed, added) = queued_both s.state id steady in
    let s1 : State = record s { state = q; subscribed = without_topic s.subscribed id } in
    let s2 : State = record s {
      state = queue_insertion q id;
      subscribed = with_topic (without_topic s.subscribed id) id;
    } in
    let again : insert_subscription s1 id ≡ s2 = ground (arith, ==_refl id) in
    (
      s1,
      (flush s2).1,
      queue_insertion q id,
      rw (known, removed) refl,
      rw again (ground (arith, ==_refl id)),
      rw (again, bot) refl,
      rw inserted (remove_all-contains remove (insert_all _ add) id ∙ ground (arith, listed)),
      λ topics.
          rw inserted
            (insert_all-contains add (remove_all topics remove) id ∙ ground (arith, added)),
    )
