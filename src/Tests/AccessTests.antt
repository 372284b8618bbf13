-- ===== src/Tests/AccessTests.antt =====
-- The access control at inputs.
use eventhub.Prelude.{
  true, false, ◌≡◌, ◌<◌, ◌⊎◌, refl, codes, ◌∷◌, [], Bytes, bytes_eq, Option, none, some, Any, inl,
  inr, length,
}
use eventhub.Topics.{is_filter_matched, is_valid_topic_or_filter}
use eventhub.AccessController.{
  absent, value, Payload, RlimitConfig, new_access_controller, authenticate, is_authenticated,
  allow_publish, allow_subscribe, get_rate_limit_for_topic,
}
use eventhub.AccessController.Grants.{grants, authenticate-grants, authenticate_fails_closed}
use eventhub.AccessController.RateLimits.{Bounded, exact_limit_first, longest_limit}

abbrev claims : Payload
claims = record {
  write = value (codes "a/#" ∷ codes "/bad" ∷ []);
  read = value (codes "+/b" ∷ []);
  sub = value (codes "someone");
  rlimit = absent;
}

-- A library that takes one token.
abbrev decode : Bytes → Bytes → Option Payload
decode token secret = elim (bytes_eq token (codes "token")) [ true ↦ some claims | false ↦ none ]

authenticate-grants_example :
    (allow_publish false
        (authenticate false decode new_access_controller (codes "token") (codes "secret")).1
        (codes "a/c")
      ≡ grants (value (codes "a/#" ∷ codes "/bad" ∷ [])) (codes "a/c"))
    × (allow_subscribe false
          (authenticate false decode new_access_controller (codes "token") (codes "secret")).1
          (codes "a/c")
        ≡ grants (value (codes "+/b" ∷ [])) (codes "a/c"))
unfolding bytes_eq authenticate is_valid_topic_or_filter
authenticate-grants_example =
    authenticate-grants decode (codes "token") (codes "secret") (codes "a/c") claims refl refl

authenticate_fails_closed_example :
    (is_authenticated false
        (authenticate false decode new_access_controller (codes "other") (codes "secret")).1
      ≡ false)
    × (allow_publish false
          (authenticate false decode new_access_controller (codes "other") (codes "secret")).1
          (codes "a/c")
        ≡ false)
    × (allow_subscribe false
          (authenticate false decode new_access_controller (codes "other") (codes "secret")).1
          (codes "a/c")
        ≡ false)
unfolding bytes_eq authenticate
authenticate_fails_closed_example =
    authenticate_fails_closed decode (codes "other") (codes "secret") (codes "a/c") refl

abbrev wide : RlimitConfig
wide = record { topic = codes "a/#"; interval = 10; max = 5 }

abbrev narrow : RlimitConfig
narrow = record { topic = codes "a/b/#"; interval = 20; max = 7 }

abbrev exact_one : RlimitConfig
exact_one = record { topic = codes "a/b"; interval = 30; max = 9 }

exact_limit_first_example :
    (r : RlimitConfig) × ((get_rate_limit_for_topic (wide ∷ narrow ∷ exact_one ∷ []) (codes "a/b")
        ≡ some r)
      × (r.topic ≡ codes "a/b"))
exact_limit_first_example =
    exact_limit_first (wide ∷ narrow ∷ exact_one ∷ []) (codes "a/b") (inr (inr (inl refl)))

longest_limit_example :
    ((get_rate_limit_for_topic (wide ∷ narrow ∷ []) (codes "a/b/c") ≡ none)
      × Bounded (codes "a/b/c") 0 (wide ∷ narrow ∷ []))
    ⊎ ((r : RlimitConfig) × ((get_rate_limit_for_topic (wide ∷ narrow ∷ []) (codes "a/b/c")
            ≡ some r)
          × (Any (λ limit. limit ≡ r) (wide ∷ narrow ∷ [])
              × ((is_filter_matched r.topic (codes "a/b/c") ≡ true)
                  × ((0 < length r.topic)
                      × Bounded (codes "a/b/c") (length r.topic) (wide ∷ narrow ∷ []))))))
unfolding bytes_eq
longest_limit_example = longest_limit (wide ∷ narrow ∷ []) (codes "a/b/c") (refl, (refl, tt))

longest_limit_test : get_rate_limit_for_topic (wide ∷ narrow ∷ []) (codes "a/b/c") ≡ some narrow
unfolding get_rate_limit_for_topic is_filter_matched bytes_eq
longest_limit_test = refl
