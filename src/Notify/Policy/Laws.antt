-- ===== src/Notify/Policy/Laws.antt =====
-- What the policies of notify/retry_policy.go retry.
use notifykit.Base.{
  ℤ, pos, ◌≡◌, ◌↔◌, ◌⊎◌, ◌≤ℤ◌, true, false, ◌&&◌, ◌||◌, Option, none, some, List, [], ◌∷◌, arith,
}
use notifykit.Notify.Error.{Error, DeliveryResult}
use notifykit.Notify.Error.Marks.{is_permanent, is_transport}
use notifykit.Notify.Policy.{
  RetryPolicy, retry_on_error, retry_on_status_code, retry_on_server_error, retry_on_timeout,
  retry_on_network_error, any_retry_policy, default_retry_policy,
}

-- The default policy retries a failure just when it is not permanent, and is a transport failure or
-- came with the status 408, 429 or 500 to 599.
pub default_retry_policy_iff :
    (r : DeliveryResult) (e : Error)
    → (default_retry_policy r (some e) ≡ true) ↔ (
        (is_permanent (some e) ≡ false)
        × ((is_transport (some e) ≡ true)
            ⊎ ((r.status_code ≡ pos 408)
                ⊎ ((r.status_code ≡ pos 429)
                    ⊎ ((pos 500 ≤ℤ r.status_code) × (r.status_code ≤ℤ pos 599))))))
unfolding default_retry_policy is_transport
default_retry_policy_iff r e = ground arith

-- Just one of RetryOnTimeout and RetryOnNetworkError retries a transport failure, and neither
-- retries any other error.
transport_split :
    (r : DeliveryResult) (e : Error)
    → ((retry_on_timeout r (some e) || retry_on_network_error r (some e)) ≡ is_transport (some e))
      × ((retry_on_timeout r (some e) && retry_on_network_error r (some e)) ≡ false)
unfolding retry_on_timeout retry_on_network_error
transport_split r e = ground arith

-- The policies that the package offers, and every combination of them by AnyRetryPolicy, nil
-- policies in the list included.
pub data IsBuiltin : RetryPolicy → Type 0 where
  on_error : IsBuiltin retry_on_error
  on_status_code : (codes : List ℤ) → IsBuiltin (retry_on_status_code codes)
  on_server_error : IsBuiltin retry_on_server_error
  on_timeout : IsBuiltin retry_on_timeout
  on_network_error : IsBuiltin retry_on_network_error
  by_default : IsBuiltin default_retry_policy
  no_policy : IsBuiltin (any_retry_policy [])
  nil_policy :
      (ps : List (Option RetryPolicy))
      → IsBuiltin (any_retry_policy ps)
      → IsBuiltin (any_retry_policy (none ∷ ps))
  either :
      {p : RetryPolicy} (ps : List (Option RetryPolicy))
      → IsBuiltin p
      → IsBuiltin (any_retry_policy ps)
      → IsBuiltin (any_retry_policy (some p ∷ ps))

-- No policy built from the package's own retries a nil error or an error that is marked permanent.
pub IsBuiltin-permanent :
    {p : RetryPolicy} (b : IsBuiltin p) (r : DeliveryResult) (e : Error)
    → is_permanent (some e) ≡ true
    → (p r none ≡ false) × (p r (some e) ≡ false)
unfolding default_retry_policy retry_on_error is_transport
IsBuiltin-permanent on_error r e h = ground arith
IsBuiltin-permanent (on_status_code codes) r e h = ground arith
IsBuiltin-permanent on_server_error r e h = ground arith
IsBuiltin-permanent on_timeout r e h = ground arith
IsBuiltin-permanent on_network_error r e h = ground arith
IsBuiltin-permanent by_default r e h = ground arith
IsBuiltin-permanent no_policy r e h = ground arith
IsBuiltin-permanent (nil_policy ps b) r e h = IsBuiltin-permanent b r e h
IsBuiltin-permanent (either ps b c) r e h =
    ground (arith, IsBuiltin-permanent b r e h, IsBuiltin-permanent c r e h)
