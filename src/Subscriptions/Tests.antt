-- ===== src/Subscriptions/Tests.antt =====
-- A connection that is subscribed to one topic.
use dawnchat_api.Prelude.{true, false, String, some, List, [], ◌∷◌, ◌≡◌, refl, ◌≢◌, ◌==◌, string_eq}
use dawnchat_api.Subscriptions.Queue.{
  SubscriptionStateChange, State, insert_subscription, remove_subscription, ServerChange,
  change_all, apply_state, follow, Topics,
}
use dawnchat_api.Subscriptions.Flush.{flush_keeps_sorted, reinserted_lost}

abbrev connection : State
connection = record {
  is_bot = true;
  session_id = "session";
  private_topic = "ada!";
  state = SubscriptionStateChange.nothing;
  subscribed = λ k. k == "home";
}

steady :
    ◌≢◌ {A = SubscriptionStateChange} SubscriptionStateChange.nothing SubscriptionStateChange.reset
steady e = cc

reinserted_lost_example :
    (s1 : State) × (s2 : State) × (c : SubscriptionStateChange) × (remove_subscription connection
        "home"
      ≡ some s1)
    × ((insert_subscription s1 "home").subscribed "home" ≡ true)
    × (apply_state [] (insert_subscription s1 "home") ≡ some (c, s2))
    × (s2.subscribed "home" ≡ false)
    × ((topics : Topics) → follow c s2.subscribed topics "home" ≡ true)
reinserted_lost_example = reinserted_lost connection "home" refl steady refl

abbrev changes : List ServerChange
changes = ServerChange.subscribe "talk" ∷ ServerChange.unsubscribe "home" ∷ []

flush_keeps_sorted_example :
    (s1 : State) × (s2 : State) × (c : SubscriptionStateChange) × (change_all connection changes
      ≡ some s1)
    × (apply_state [] s1 ≡ some (c, s2))
    × ((k : String)
        → (s2.subscribed k ≡ s1.subscribed k)
          × (follow c s2.subscribed connection.subscribed k ≡ s1.subscribed k))
    × (s2.state ≡ SubscriptionStateChange.nothing)
flush_keeps_sorted_example =
    flush_keeps_sorted (λ k. k == "talk") changes connection refl refl (refl, (refl, tt))
