-- ===== src/AccessController.antt =====
-- What a client may do, src/AccessController.cpp and include/AccessController.hpp. Decoding a token
-- is the jwt library's: `decode` is a parameter, `none` stands for the exception that it throws, and
-- a payload holds what the program asks of it.
pub mod Grants
pub mod RateLimits
use eventhub.Prelude.{
  ℕ, ◌+◌, Bool, true, false, not, ◌&&◌, List, [], ◌∷◌, ◌++◌, ◌==◌, if◌then◌else◌, ltb, Bytes,
  bytes_eq, Option, none, some, length, any,
}
use eventhub.Topics.{is_valid_topic_or_filter, is_filter_matched}

-- A claim of a payload, or a field of a JSON object: it may be missing, or of another type, so that
-- reading it throws.
pub data Claim (A : Type 0) : Type 0 where
  absent wrong_type : Claim A
  value : A → Claim A

-- `rlimit_config_t`
pub record RlimitConfig : Type 0 where
  pub topic : Bytes
  pub interval : ℕ
  pub max : ℕ

-- An element of the claim "rlimit": an object with its three fields, or something else. The
-- subscript of the json library on a constant object has no result for a missing field; it is taken
-- like a field of the wrong type here.
pub data RlimitJson : Type 0 where
  not_object : RlimitJson
  object : Claim Bytes → Claim ℕ → Claim ℕ → RlimitJson

pub record Payload : Type 0 where
  pub write : Claim (List Bytes)
  pub read : Claim (List Bytes)
  pub sub : Claim Bytes
  pub rlimit : Claim (List RlimitJson)

pub record AccessController : Type 0 where
  pub token_loaded : Bool
  pub subject : Bytes
  pub publish_acl : List Bytes
  pub subscribe_acl : List Bytes
  pub limit_configs : List RlimitConfig

abbrev pub new_access_controller : AccessController
new_access_controller = record {
  token_loaded = false;
  subject = [];
  publish_acl = [];
  subscribe_acl = [];
  limit_configs = [];
}

-- The loop over a claim "read" or "write": the valid filters are added to the list.
unfoldable pub push_filters : List Bytes → List Bytes → List Bytes
push_filters acl [] = acl
push_filters acl (filter ∷ filters) =
    push_filters (if is_valid_topic_or_filter filter then acl ++ filter ∷ [] else acl) filters

-- One element of `loadFromJSON`; where a field cannot be read the element is passed over.
unfoldable pub load_rlimit : List RlimitConfig → RlimitJson → List RlimitConfig
load_rlimit configs (object (value topic) (value interval) (value max)) =
    configs ++ record { topic = topic; interval = interval; max = max } ∷ []
load_rlimit configs _ = configs

unfoldable pub load_from_json : List RlimitConfig → List RlimitJson → List RlimitConfig
unfolding load_rlimit
load_from_json configs [] = configs
load_from_json configs (j ∷ js) = load_from_json (load_rlimit configs j) js

-- The statements of `authenticate` behind the decoding, each with what an exception leaves behind.
-- The claim "rlimit" is used if it is an array.
unfoldable pub load_rlimit_claim :
    Claim (List RlimitJson) → AccessController → Bool × AccessController
unfolding load_from_json
load_rlimit_claim (value js) ac =
    (true, record ac { limit_configs = load_from_json ac.limit_configs js; token_loaded = true })
load_rlimit_claim _ ac = (true, record ac { token_loaded = true })

unfoldable pub load_sub :
    Claim Bytes → Claim (List RlimitJson) → AccessController → Bool × AccessController
unfolding load_rlimit_claim
load_sub absent limits ac = load_rlimit_claim limits ac
load_sub wrong_type limits ac = (false, ac)
load_sub (value s) limits ac = load_rlimit_claim limits (record ac { subject = s })

-- The test that some filter was loaded.
unfoldable pub require_acl :
    Claim Bytes → Claim (List RlimitJson) → AccessController → Bool × AccessController
unfolding load_sub
require_acl sub limits ac =
    if length ac.subscribe_acl + length ac.publish_acl == 0
    then (false, ac)
    else load_sub sub limits ac

unfoldable pub load_read : Payload → Claim (List Bytes) → AccessController → Bool × AccessController
unfolding push_filters require_acl
load_read payload absent ac = require_acl payload.sub payload.rlimit ac
load_read payload wrong_type ac = (false, ac)
load_read payload (value filters) ac =
    require_acl payload.sub payload.rlimit
      (record ac { subscribe_acl = push_filters ac.subscribe_acl filters })

unfoldable pub load_write :
    Payload → Claim (List Bytes) → AccessController → Bool × AccessController
unfolding load_read
load_write payload absent ac = load_read payload payload.read ac
load_write payload wrong_type ac = (false, ac)
load_write payload (value filters) ac =
    load_read payload payload.read (record ac { publish_acl = push_filters ac.publish_acl filters })

unfoldable pub load_token : Option Payload → AccessController → Bool × AccessController
unfolding load_write
load_token none ac = (false, ac)
load_token (some payload) ac = load_write payload payload.write ac

-- `disable_auth` is the configuration's.
unfoldable pub authenticate :
    Bool
    → (Bytes → Bytes → Option Payload)
    → AccessController
    → Bytes
    → Bytes
    → Bool × AccessController
unfolding load_token
authenticate disable_auth decode ac jwt_token secret =
    if disable_auth then (true, ac) else load_token (decode jwt_token secret) ac

unfoldable pub is_authenticated : Bool → AccessController → Bool
is_authenticated disable_auth ac =
    if disable_auth then true else if not ac.token_loaded then false else true

unfoldable pub allow_publish : Bool → AccessController → Bytes → Bool
allow_publish disable_auth ac topic =
    if disable_auth
    then true
    else if not ac.token_loaded
    then false
    else any (λ filter. is_filter_matched filter topic) ac.publish_acl

unfoldable pub allow_subscribe : Bool → AccessController → Bytes → Bool
allow_subscribe disable_auth ac topic =
    if disable_auth
    then true
    else if not ac.token_loaded
    then false
    else any (λ filter. is_filter_matched filter topic) ac.subscribe_acl

unfoldable pub allow_create_token : Bool → AccessController → Bytes → Bool
allow_create_token disable_auth ac path =
    if disable_auth then true else if not ac.token_loaded then false else true

-- The loop of `getRateLimitForTopic`: `found` is `rlimit` once there is one, and `matched_len` is
-- `matchedPatternLen`.
unfoldable pub find_rate_limit :
    List RlimitConfig → Option RlimitConfig → ℕ → Bytes → Option RlimitConfig
find_rate_limit [] found matched_len topic = found
find_rate_limit (limit ∷ limits) found matched_len topic =
    let closer = is_filter_matched limit.topic topic && ltb matched_len (length limit.topic) in
    let rest =
      find_rate_limit limits (if closer then some limit else found)
        (if closer then length limit.topic else matched_len) topic in
    if bytes_eq limit.topic topic then some limit else rest

-- `none` is the exception `NoRateLimitForTopic`.
unfoldable pub get_rate_limit_for_topic : List RlimitConfig → Bytes → Option RlimitConfig
unfolding find_rate_limit
get_rate_limit_for_topic configs topic = find_rate_limit configs none 0 topic
