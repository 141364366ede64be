-- ===== src/Targets/Webhook/Sharing.antt =====
-- targets/webhook/webhook.go: NewFromTarget with header maps as shared objects.
use notifykit.Base.{ℕ, ◌≡◌, refl, ap, ◌∙◌, Option, none, some, List, [], ◌∷◌, All}
use notifykit.Text.{Text}
use notifykit.Heap.{Heap, entries, Keeps, IsNew}
use notifykit.Targets.Sharing.{HasHeaders, SharedOption, Shared, new_from_shared}
use notifykit.Targets.Sharing.Refines.{view, option_values, IsAllowed, new_from_shared-Refines}
use notifykit.Targets.Webhook.Sending.{Webhook, Http, apply_defaults}
use notifykit.Targets.Webhook.Config.{Setting, apply_settings, with_headers, new_from_target}

module _ {Client Data : Type 0} where
  abbrev pub webhook_headers : HasHeaders (Webhook Client Data)
  webhook_headers = record {
    headers = λ t. t.headers;
    with_map = λ m t. record t { headers = m };
    headers_with = λ m t. refl;
    with_with = λ m n t. refl;
  }

  -- The option on a target with its headers as a value, with the maps of the heap.
  abbrev pub setting_of : Heap Text → SharedOption (Webhook Client Data) → Setting Client Data
  setting_of h (SharedOption.copies q) = with_headers (entries h q)
  setting_of h (SharedOption.sets f) = f

  abbrev pub settings_of :
      Heap Text
      → List (Option (SharedOption (Webhook Client Data)))
      → List (Option (Setting Client Data))
  settings_of h [] = []
  settings_of h (none ∷ opts) = none ∷ settings_of h opts
  settings_of h (some opt ∷ opts) = some (setting_of h opt) ∷ settings_of h opts

  settings_of_lem :
      (h : Heap Text) (opts : List (Option (SharedOption (Webhook Client Data))))
      (t : Webhook Client Data)
      → option_values webhook_headers h opts t ≡ apply_settings (settings_of h opts) t
  unfolding apply_settings with_headers
  settings_of_lem h [] t = refl
  settings_of_lem h (none ∷ opts) t = settings_of_lem h opts t
  settings_of_lem h (some (SharedOption.copies q) ∷ opts) t = settings_of_lem h opts _
  settings_of_lem h (some (SharedOption.sets f) ∷ opts) t = settings_of_lem h opts (f t)

module _ {Client World Data : Type 0} (http : Http Client World) where
  unfoldable pub webhook_from_shared :
      Shared (Webhook Client Data)
      → List (Option (SharedOption (Webhook Client Data)))
      → Shared (Webhook Client Data)
  webhook_from_shared = new_from_shared (apply_defaults http)

  -- NewFromTarget, whose options copy maps into the header map of the new target, changes none of the
  -- maps that there were: neither the one of its argument nor those of the options. The header map of
  -- the new target is none of them, and the target is the one that NewFromTarget gives where maps are
  -- values. The other options do not look at the headers.
  webhook_from_shared-Refines :
      (h : Heap Text) (t : Webhook Client Data) (p : Option ℕ)
      (opts : List (Option (SharedOption (Webhook Client Data))))
      → All (IsAllowed webhook_headers h.next) opts
      → let s = webhook_from_shared (t, p, h) opts in
        Keeps h.next h s.2
        × IsNew h.next s.1
        × (view webhook_headers s
            ≡ new_from_target http (view webhook_headers (t, p, h)) (settings_of h opts))
  unfolding webhook_from_shared new_from_target apply_defaults
  webhook_from_shared-Refines h t p opts allowed =
      let (kept, new, v) =
        new_from_shared-Refines webhook_headers h (apply_defaults http) t p opts (λ m t. refl)
          allowed in
      (
        kept,
        new,
        v ∙ ap (apply_defaults http) (settings_of_lem h opts (view webhook_headers (t, p, h))),
      )
