-- ===== src/Subscriptions/Queue.antt =====
-- The queue of changes to subscriptions (crates/bonfire/src/events/state.rs). Of the cache only the
-- flag for bots is kept; a `HashSet` is its test for membership. The cache of active servers is a
-- library's: what its iterator yields, with the names of the topics, is an input of `apply_state`.
use dawnchat_api.Prelude.{
  Bool, false, not, ◌&&◌, ◌||◌, String, Option, none, some, List, [], ◌∷◌, ◌++◌, ◌==◌, string_eq,
  if◌then◌else◌,
}

-- `SubscriptionStateChange`.
pub data SubscriptionStateChange : Type 0 where
  nothing reset : SubscriptionStateChange
  -- add, remove
  change : List String → List String → SubscriptionStateChange

-- `HashSet<String>`.
abbrev pub Topics : Type 0
Topics = String → Bool

unfoldable pub with_topic : Topics → String → Topics
with_topic subscribed id k = k == id || subscribed k

unfoldable pub without_topic : Topics → String → Topics
without_topic subscribed id k = not (k == id) && subscribed k

-- `State`.
pub record State : Type 0 where
  pub is_bot : Bool
  pub session_id : String
  pub private_topic : String
  pub state : SubscriptionStateChange
  pub subscribed : Topics

-- `State::from`; the name of the private topic is `format!("{}!", user.id)`.
unfoldable pub from_user : (String → String) → String → String → State
unfolding with_topic
from_user format_private user_id session_id = record {
  is_bot = false;
  session_id = session_id;
  private_topic = format_private user_id;
  state = SubscriptionStateChange.reset;
  subscribed = with_topic (with_topic (λ k. false) (format_private user_id)) user_id;
}

-- `reset_state`.
unfoldable pub reset_state : State → State
reset_state self = record self { state = SubscriptionStateChange.reset; subscribed = λ k. false }

unfoldable pub queue_insertion : SubscriptionStateChange → String → SubscriptionStateChange
queue_insertion SubscriptionStateChange.nothing id = SubscriptionStateChange.change (id ∷ []) []
queue_insertion (SubscriptionStateChange.change add remove) id =
    SubscriptionStateChange.change (add ++ id ∷ []) remove
queue_insertion SubscriptionStateChange.reset id = SubscriptionStateChange.reset

-- `insert_subscription`.
unfoldable pub insert_subscription : State → String → State
unfolding queue_insertion with_topic
insert_subscription self id = if self.subscribed id then self else record self {
  state = queue_insertion self.state id;
  subscribed = with_topic self.subscribed id;
}

-- `none` is the panic during a reset.
unfoldable pub queue_removal : SubscriptionStateChange → String → Option SubscriptionStateChange
queue_removal SubscriptionStateChange.nothing id =
    some (SubscriptionStateChange.change [] (id ∷ []))
queue_removal (SubscriptionStateChange.change add remove) id =
    some (SubscriptionStateChange.change add (remove ++ id ∷ []))
queue_removal SubscriptionStateChange.reset id = none

-- `remove_subscription`.
unfoldable pub remove_subscription : State → String → Option State
unfolding queue_removal without_topic
remove_subscription self id =
    if not (self.subscribed id) then some self else elim (queue_removal self.state id) [
      | none ↦ none
      | some state ↦
          some (record self { state = state; subscribed = without_topic self.subscribed id })
    ]

-- The `Server` of `apply_state`.
pub data ServerChange : Type 0 where
  subscribe unsubscribe : String → ServerChange

-- `for entry in active_server_changes`.
unfoldable pub change_all : State → List ServerChange → Option State
unfolding insert_subscription remove_subscription
change_all self [] = some self
change_all self (ServerChange.subscribe k ∷ rest) = change_all (insert_subscription self k) rest
change_all self (ServerChange.unsubscribe k ∷ rest) = elim (remove_subscription self k) [
  | none ↦ none
  | some self' ↦ change_all self' rest
]

unfoldable pub insert_all : Topics → List String → Topics
unfolding with_topic
insert_all subscribed [] = subscribed
insert_all subscribed (id ∷ ids) = insert_all (with_topic subscribed id) ids

unfoldable pub remove_all : Topics → List String → Topics
unfolding without_topic
remove_all subscribed [] = subscribed
remove_all subscribed (id ∷ ids) = remove_all (without_topic subscribed id) ids

unfoldable pub flushed : SubscriptionStateChange → Topics → Topics
unfolding insert_all remove_all
flushed SubscriptionStateChange.nothing subscribed = subscribed
flushed SubscriptionStateChange.reset subscribed = subscribed
flushed (SubscriptionStateChange.change add remove) subscribed =
    remove_all (insert_all subscribed add) remove

-- The end of `apply_state`: the queue is emptied and returned.
unfoldable pub flush : State → SubscriptionStateChange × State
unfolding flushed
flush self = (
  self.state,
  record self {
    state = SubscriptionStateChange.nothing;
    subscribed = flushed self.state self.subscribed;
  },
)

-- `apply_state`.
unfoldable pub apply_state : List ServerChange → State → Option (SubscriptionStateChange × State)
unfolding change_all flush
apply_state active self =
    if not self.is_bot
    then elim (change_all self active) [ none ↦ none | some self' ↦ some (flush self') ]
    else some (flush self)

-- The match on the returned queue in the websocket's loop (crates/bonfire/src/websocket.rs): the
-- topics of the connection to Redis, if none of its calls fails.
unfoldable pub follow : SubscriptionStateChange → Topics → Topics → Topics
unfolding insert_all remove_all
follow SubscriptionStateChange.nothing subscribed topics = topics
follow SubscriptionStateChange.reset subscribed topics = subscribed
follow (SubscriptionStateChange.change add remove) subscribed topics =
    insert_all (remove_all topics remove) add
