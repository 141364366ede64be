-- ===== src/Notify/Receivers/Build.antt =====
-- notify/receiver.go: NewReceiver, NewReceivers and the methods that fill in a receiver.
-- A nil *Receiver is `none`; a method returns the receiver that it has changed.
use notifykit.Base.{pos, false, Option, none, some, List, [], ◌∷◌, ◌++◌}
use notifykit.Text.{Text}
use notifykit.Notify.Backoff.{RetryConfig}
use notifykit.Notify.Receivers.{Receiver, insert, normalize_receivers}

abbrev pub no_retry : RetryConfig
no_retry = record {
  count = pos 0;
  backoff = pos 0;
  max_backoff = pos 0;
  jitter = false;
  policy = none;
}

module _ {Target Value : Type 0} where
  unfoldable pub new_receiver : Text → List (Option Target) → Receiver Target Value
  new_receiver id targets = record {
    id = id;
    name = id;
    retry = no_retry;
    targets = targets;
    custom_data = [];
  }

  -- The loop of NewReceivers.
  unfoldable pub collect :
      List (Text × Option (Receiver Target Value))
      → List (Option (Receiver Target Value))
      → List (Text × Option (Receiver Target Value))
  unfolding insert
  collect out [] = out
  collect out (none ∷ rs) = collect out rs
  collect out (some r ∷ rs) = collect (insert r.id (some r) out) rs

  unfoldable pub new_receivers :
      List (Option (Receiver Target Value)) → List (Text × Receiver Target Value)
  unfolding collect normalize_receivers
  new_receivers receivers = normalize_receivers (collect [] receivers)

  unfoldable pub with_name : Option (Receiver Target Value) → Text → Option (Receiver Target Value)
  with_name none name = none
  with_name (some r) name = some (record r { name = name })

  unfoldable pub with_retry_config :
      Option (Receiver Target Value) → RetryConfig → Option (Receiver Target Value)
  with_retry_config none cfg = none
  with_retry_config (some r) cfg = some (record r { retry = cfg })

  unfoldable pub with_targets :
      Option (Receiver Target Value) → List (Option Target) → Option (Receiver Target Value)
  with_targets none targets = none
  with_targets (some r) targets = some (record r { targets = r.targets ++ targets })

  unfoldable pub with_custom_data :
      Option (Receiver Target Value) → List (Text × Value) → Option (Receiver Target Value)
  with_custom_data none entries = none
  with_custom_data (some r) entries = some (record r { custom_data = entries })
