-- ===== src/Ratelimits/Resolver.antt =====
-- The buckets of the REST API (crates/delta/src/util/ratelimits.rs). A request is what the resolver
-- reads of it: its routed segments and its method.
use dawnchat_api.Prelude.{
  ℕ, suc, zero, ◌+◌, ◌≤◌, Bool, true, false, Option, none, some, List, [], ◌∷◌, String, ◌≡◌, refl,
  arith, ◌==◌, string_eq, if◌then◌else◌,
}

-- The methods that the resolver tells apart.
pub data Method : Type 0 where
  patch post delete other : Method

pub record Request : Type 0 where
  pub segments : List String
  pub method : Method

-- `request.routed_segment(n)`.
unfoldable pub segment_at : List String → ℕ → Option String
segment_at [] n = none
segment_at (x ∷ xs) zero = some x
segment_at (x ∷ xs) (suc n) = segment_at xs n

abbrev pub Bucket : Type 0
Bucket = String × Option String

-- `x == Some("…")`.
abbrev is_some : Option String → String → Bool
is_some none y = false
is_some (some x) y = x == y

abbrev is_patch : Method → Bool
is_patch Method.patch = true
is_patch _ = false

abbrev is_post : Method → Bool
is_post Method.post = true
is_post _ = false

abbrev is_delete : Method → Bool
is_delete Method.delete = true
is_delete _ = false

-- The arms for channels and servers, which need a resource.
unfoldable pub channel_bucket : Option String → Option String → Method → Bucket
channel_bucket none extra method = ("any", none)
channel_bucket (some id) extra method =
    if is_post method
    then (if is_some extra "messages" then ("messaging", some id) else ("channels", some id))
    else ("channels", some id)

unfoldable pub server_bucket : Option String → Bucket
server_bucket none = ("any", none)
server_bucket (some id) = ("servers", some id)

-- `match (segment, resource, method)`.
unfoldable pub segment_bucket : String → Option String → Option String → Method → Bucket
unfolding channel_bucket server_bucket
segment_bucket segment resource extra method =
    if segment == "users"
    then (if is_patch method
        then ("user_edit", resource)
        else if is_some extra "default_avatar"
        then ("default_avatar", none)
        else ("users", none))
    else if segment == "bots"
    then ("bots", none)
    else if segment == "channels"
    then channel_bucket resource extra method
    else if segment == "servers"
    then server_bucket resource
    else if segment == "auth"
    then (if is_delete method then ("auth_delete", none) else ("auth", none))
    else if segment == "swagger"
    then ("swagger", none)
    else if segment == "safety"
    then (if is_some resource "report" then ("safety_report", some "report") else ("safety", none))
    else ("any", none)

-- The test of the first segment: how many segments the version takes.
unfoldable pub skipped : Request → ℕ
unfolding segment_at
skipped request = if is_some (segment_at request.segments 0) "0.8" then 1 else 0

unfoldable pub resolve_from : Request → ℕ → Bucket
unfolding segment_at segment_bucket
resolve_from request n = elim (segment_at request.segments n) [
  | none ↦ ("any", none)
  | some segment ↦
      segment_bucket segment (segment_at request.segments (n + 1))
        (segment_at request.segments (n + 2)) request.method
]

-- `resolve_bucket`.
unfoldable pub resolve_bucket : Request → Bucket
unfolding skipped resolve_from
resolve_bucket request = resolve_from request (skipped request)

-- `resolve_bucket_limit`.
unfoldable pub resolve_bucket_limit : String → ℕ
resolve_bucket_limit bucket =
    if bucket == "user_edit"
    then 2
    else if bucket == "users"
    then 20
    else if bucket == "bots"
    then 10
    else if bucket == "messaging"
    then 10
    else if bucket == "channels"
    then 15
    else if bucket == "servers"
    then 5
    else if bucket == "auth"
    then 15
    else if bucket == "auth_delete"
    then 255
    else if bucket == "default_avatar"
    then 255
    else if bucket == "swagger"
    then 100
    else if bucket == "safety"
    then 15
    else if bucket == "safety_report"
    then 3
    else 20

-- A request with the version in front falls into the same bucket as without it (unless that begins
-- with the version again).
pub resolve_bucket-versioned :
    (segments : List String) (method : Method)
    → is_some (segment_at segments 0) "0.8" ≡ false
    → resolve_bucket (record { segments = "0.8" ∷ segments; method = method })
      ≡ resolve_bucket (record { segments = segments; method = method })
unfolding resolve_bucket
resolve_bucket-versioned [] method h = refl
resolve_bucket-versioned (x ∷ xs) method h = rw h

abbrev IsMeant : ℕ → Type 0
IsMeant limit = (2 ≤ limit) × (limit ≤ 255)

if-IsMeant : (c : Bool) (v w : ℕ) → IsMeant v → IsMeant w → IsMeant (if c then v else w)
if-IsMeant true v w h k = h
if-IsMeant false v w h k = k

-- No bucket is shut: every limit is at least 2, and at most 255.
pub resolve_bucket_limit_bounds :
    (bucket : String) → (2 ≤ resolve_bucket_limit bucket) × (resolve_bucket_limit bucket ≤ 255)
unfolding resolve_bucket_limit
resolve_bucket_limit_bounds bucket = if-IsMeant (bucket == "user_edit") 2 _ (omega arith) (
    if-IsMeant (bucket == "users") 20 _ (omega arith) (
      if-IsMeant (bucket == "bots") 10 _ (omega arith) (
        if-IsMeant (bucket == "messaging") 10 _ (omega arith) (
          if-IsMeant (bucket == "channels") 15 _ (omega arith) (
            if-IsMeant (bucket == "servers") 5 _ (omega arith) (
              if-IsMeant (bucket == "auth") 15 _ (omega arith) (
                if-IsMeant (bucket == "auth_delete") 255 _ (omega arith) (
                  if-IsMeant (bucket == "default_avatar") 255 _ (omega arith) (
                    if-IsMeant (bucket == "swagger") 100 _ (omega arith) (
                      if-IsMeant (bucket == "safety") 15 _ (omega arith) (
                        if-IsMeant (bucket == "safety_report") 3 20 (omega arith)
                          (omega arith))))))))))))
