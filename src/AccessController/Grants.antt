-- ===== src/AccessController/Grants.antt =====
-- What a token grants, after src/AccessController.cpp.
use eventhub.Prelude.{
  ◌+◌, ◌≡◌, refl, ap, ◌∙◌, Bool, true, false, ◌&&◌, ◌||◌, List, [], ◌∷◌, ◌++◌, Bytes, Option, none,
  some, length, any, any-append, ◌==◌, arith, if_both, sym,
}
use eventhub.Topics.{is_valid_topic_or_filter, is_filter_matched}
use eventhub.AccessController.{
  Claim, absent, wrong_type, value, RlimitJson, Payload, AccessController, new_access_controller,
  push_filters, load_token, load_write, load_read, require_acl, load_sub, load_rlimit_claim,
  authenticate, is_authenticated, allow_publish, allow_subscribe,
}

-- The filters of a claim.
abbrev pub filters_of : Claim (List Bytes) → List Bytes
filters_of (value fs) = fs
filters_of _ = []

-- The topics that the valid filters of a claim match.
abbrev pub grants : Claim (List Bytes) → Bytes → Bool
grants c topic = any (λ f. is_valid_topic_or_filter f && is_filter_matched f topic) (filters_of c)

any-push :
    (acl fs : List Bytes) (topic : Bytes)
    → any (λ f. is_filter_matched f topic) (push_filters acl fs) ≡ (
        any (λ f. is_filter_matched f topic) acl
        || any (λ f. is_valid_topic_or_filter f && is_filter_matched f topic) fs)
unfolding push_filters
any-push acl [] topic = ground arith
any-push acl (f ∷ fs) topic = ground (
  arith,
  any-push acl fs topic,
  any-push (acl ++ f ∷ []) fs topic,
  any-append (λ g. is_filter_matched g topic) acl (f ∷ []),
)

-- What the statements behind the two filter claims leave alone.
record SameAcl (ac : AccessController) (r : Bool × AccessController) : Type 0 where
  publish_kept : r.1.publish_acl ≡ ac.publish_acl
  subscribe_kept : r.1.subscribe_acl ≡ ac.subscribe_acl
  loaded : r.1.token_loaded ≡ (r.0 || ac.token_loaded)

load_rlimit_claim-SameAcl :
    (limits : Claim (List RlimitJson)) (ac : AccessController)
    → SameAcl ac (load_rlimit_claim limits ac)
unfolding load_rlimit_claim
load_rlimit_claim-SameAcl absent ac = record {
  publish_kept = refl;
  subscribe_kept = refl;
  loaded = refl;
}
load_rlimit_claim-SameAcl wrong_type ac = record {
  publish_kept = refl;
  subscribe_kept = refl;
  loaded = refl;
}
load_rlimit_claim-SameAcl (value js) ac = record {
  publish_kept = refl;
  subscribe_kept = refl;
  loaded = refl;
}

load_sub-SameAcl :
    (sub : Claim Bytes) (limits : Claim (List RlimitJson)) (ac : AccessController)
    → SameAcl ac (load_sub sub limits ac)
unfolding load_sub
load_sub-SameAcl absent limits ac = load_rlimit_claim-SameAcl limits ac
load_sub-SameAcl wrong_type limits ac = record {
  publish_kept = refl;
  subscribe_kept = refl;
  loaded = refl;
}
load_sub-SameAcl (value s) limits ac =
    let kept = load_rlimit_claim-SameAcl limits (record ac { subject = s }) in
    record {
      publish_kept = SameAcl.publish_kept kept;
      subscribe_kept = SameAcl.subscribe_kept kept;
      loaded = SameAcl.loaded kept;
    }

require_acl-SameAcl :
    (sub : Claim Bytes) (limits : Claim (List RlimitJson)) (ac : AccessController)
    → SameAcl ac (require_acl sub limits ac)
unfolding require_acl
require_acl-SameAcl sub limits ac =
    if_both (SameAcl ac) (length ac.subscribe_acl + length ac.publish_acl == 0) (false, ac)
      (load_sub sub limits ac)
      (record { publish_kept = refl; subscribe_kept = refl; loaded = refl })
      (load_sub-SameAcl sub limits ac)

-- The lists that the filter claims leave on a new controller, if no exception is thrown.
record Loaded (payload : Payload) (r : Bool × AccessController) : Type 0 where
  published : r.0 ≡ true → r.1.publish_acl ≡ push_filters [] (filters_of payload.write)
  subscribed : r.0 ≡ true → r.1.subscribe_acl ≡ push_filters [] (filters_of payload.read)
  loaded_iff : r.1.token_loaded ≡ r.0

or_false : (b : Bool) → (b || false) ≡ b
or_false true = refl
or_false false = refl

load_read-Loaded :
    (payload : Payload) (c : Claim (List Bytes)) (ac : AccessController)
    → payload.read ≡ c
    → ac.token_loaded ≡ false
    → ac.subscribe_acl ≡ []
    → ac.publish_acl ≡ push_filters [] (filters_of payload.write)
    → Loaded payload (load_read payload c ac)
unfolding load_read push_filters
load_read-Loaded payload absent ac e l s p =
    let kept = require_acl-SameAcl payload.sub payload.rlimit ac in
    record {
      published = λ h. SameAcl.publish_kept kept ∙ p;
      subscribed =
          λ h. SameAcl.subscribe_kept kept ∙ s ∙ sym (ap (λ c. push_filters [] (filters_of c)) e);
      loaded_iff =
          SameAcl.loaded kept
          ∙ ap (◌||◌ (require_acl payload.sub payload.rlimit ac).0) l
          ∙ or_false (require_acl payload.sub payload.rlimit ac).0;
    }
load_read-Loaded payload wrong_type ac e l s p = record {
  published = λ h. absurd (ground arith);
  subscribed = λ h. absurd (ground arith);
  loaded_iff = l;
}
load_read-Loaded payload (value filters) ac e l s p =
    let ac' = record ac { subscribe_acl = push_filters ac.subscribe_acl filters } in
    let kept = require_acl-SameAcl payload.sub payload.rlimit ac' in
    record {
      published = λ h. SameAcl.publish_kept kept ∙ p;
      subscribed = λ h.
          SameAcl.subscribe_kept kept
          ∙ ap (λ a. push_filters a filters) s
          ∙ sym (ap (λ c. push_filters [] (filters_of c)) e);
      loaded_iff =
          SameAcl.loaded kept
          ∙ ap (◌||◌ (require_acl payload.sub payload.rlimit ac').0) l
          ∙ or_false (require_acl payload.sub payload.rlimit ac').0;
    }

load_write-Loaded :
    (payload : Payload) (c : Claim (List Bytes))
    → payload.write ≡ c
    → Loaded payload (load_write payload c new_access_controller)
unfolding load_write push_filters
load_write-Loaded payload absent e =
    load_read-Loaded payload payload.read new_access_controller refl refl refl
      (sym (ap (λ c. push_filters [] (filters_of c)) e))
load_write-Loaded payload wrong_type e = record {
  published = λ h. absurd (ground arith);
  subscribed = λ h. absurd (ground arith);
  loaded_iff = refl;
}
load_write-Loaded payload (value filters) e =
    load_read-Loaded payload payload.read
      (record new_access_controller { publish_acl = push_filters [] filters }) refl refl refl
      (sym (ap (λ c. push_filters [] (filters_of c)) e))

-- A token that `authenticate` accepts, on a new connection with authentication enabled, grants
-- publishing to exactly the topics that a valid filter of its claim "write" matches, and
-- subscribing to those that a valid filter of its claim "read" matches.
pub authenticate-grants :
    (decode : Bytes → Bytes → Option Payload) (token secret topic : Bytes) (payload : Payload)
    → decode token secret ≡ some payload
    → (authenticate false decode new_access_controller token secret).0 ≡ true
    → (allow_publish false (authenticate false decode new_access_controller token secret).1 topic
        ≡ grants payload.write topic)
      × (allow_subscribe false
            (authenticate false decode new_access_controller token secret).1
            topic
          ≡ grants payload.read topic)
unfolding authenticate load_token allow_publish allow_subscribe push_filters
authenticate-grants decode token secret topic payload d h =
    let h' : (load_write payload payload.write new_access_controller).0 ≡ true =
      sym (ap (λ o. (load_token o new_access_controller).0) d) ∙ h in
    let r = load_write-Loaded payload payload.write refl in
    rw d (
      rw (Loaded.loaded_iff r, h', Loaded.published r h')
          (any-push [] (filters_of payload.write) topic),
      rw (Loaded.loaded_iff r, h', Loaded.subscribed r h')
          (any-push [] (filters_of payload.read) topic),
    )

-- Where the token was refused, it is not loaded.
load_token_loaded :
    (o : Option Payload)
    → (load_token o new_access_controller).1.token_loaded ≡ (load_token o new_access_controller).0
unfolding load_token
load_token_loaded none = refl
load_token_loaded (some payload) = Loaded.loaded_iff (load_write-Loaded payload payload.write refl)

-- A new controller whose `authenticate` has failed, whatever the reason, is not authenticated and
-- allows neither publishing nor subscribing, to any topic.
pub authenticate_fails_closed :
    (decode : Bytes → Bytes → Option Payload) (token secret topic : Bytes)
    → (authenticate false decode new_access_controller token secret).0 ≡ false
    → (is_authenticated false (authenticate false decode new_access_controller token secret).1
        ≡ false)
      × (allow_publish false (authenticate false decode new_access_controller token secret).1 topic
          ≡ false)
      × (allow_subscribe false
            (authenticate false decode new_access_controller token secret).1
            topic
          ≡ false)
unfolding authenticate is_authenticated allow_publish allow_subscribe
authenticate_fails_closed decode token secret topic h =
    let e = load_token_loaded (decode token secret) ∙ h in rw e (refl, refl, refl)
