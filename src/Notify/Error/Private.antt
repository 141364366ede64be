-- ===== src/Notify/Error/Private.antt =====
-- notify/error.go, targets/webhook/webhook.go (redactedError): what the text of an error does not tell.
use notifykit.Base.{ℕ, ℤ, ◌≡◌, refl, ap, List}
use notifykit.Text.{Text}
use notifykit.Notify.Error.{
  Error, Errors, nil, cons, Foreign, DeliveryResult, find_as, find_as_any, or_else, wrapped, joined,
  permanent_error, transport_error, delivery_error, operation_error, redacted_error,
  foreign_wrapping,
}
use notifykit.Notify.Error.Marks.{is_timeout_error, is_deadline, as_net_error}
use notifykit.Notify.Error.Texts.{Formats, error_text, error_texts}

-- Two chains that differ at most in the results that their delivery errors hold, and in what their
-- redacted errors hide, but for the answers of the tests for a timeout.
mutual
  pub data Alike : Error → Error → Type 0 where
    same : (e : Error) → Alike e e
    wrap :
        (s : Text) (args : List Text) {e f : Error}
        → Alike e f
        → Alike (wrapped s args e) (wrapped s args f)
    join : {es fs : Errors} → AllAlike es fs → Alike (joined es) (joined fs)
    mark_permanent : {e f : Error} → Alike e f → Alike (permanent_error e) (permanent_error f)
    mark_transport : {e f : Error} → Alike e f → Alike (transport_error e) (transport_error f)
    deliver :
        (id type_name : Text) (index attempts : ℕ) (r q : DeliveryResult) {e f : Error}
        → Alike e f
        → Alike
            (delivery_error id type_name index attempts r e)
            (delivery_error id type_name index attempts q f)
    operate :
        (operation : Text) (timeout : ℤ) {e f : Error}
        → Alike e f
        → Alike (operation_error operation timeout e) (operation_error operation timeout f)
    redact :
        (e f : Error) (text : Text)
        → find_as is_deadline e ≡ find_as is_deadline f
        → find_as as_net_error e ≡ find_as as_net_error f
        → Alike (redacted_error e text) (redacted_error f text)
    wrap_foreign :
        (x : Foreign) {e f : Error}
        → Alike e f
        → Alike (foreign_wrapping x e) (foreign_wrapping x f)

  pub data AllAlike : Errors → Errors → Type 0 where
    nobody : AllAlike nil nil
    both :
        {e f : Error} {es fs : Errors}
        → Alike e f
        → AllAlike es fs
        → AllAlike (cons e es) (cons f fs)

-- The tests for a timeout give the same answers on both.
mutual
  unfolding find_as find_as_any

  Alike-timeout :
      {e f : Error}
      → Alike e f
      → (find_as is_deadline e ≡ find_as is_deadline f)
        × (find_as as_net_error e ≡ find_as as_net_error f)
  Alike-timeout (Alike.same e) = (refl, refl)
  Alike-timeout (Alike.wrap s args x) = Alike-timeout x
  Alike-timeout (Alike.join xs) = AllAlike-timeout xs
  Alike-timeout (Alike.mark_permanent x) = Alike-timeout x
  Alike-timeout (Alike.mark_transport x) = Alike-timeout x
  Alike-timeout (Alike.deliver i t n k r q x) = Alike-timeout x
  Alike-timeout (Alike.operate o t x) = Alike-timeout x
  Alike-timeout (Alike.redact e f text h k) = (h, k)
  Alike-timeout (Alike.wrap_foreign y x) =
      let (h, k) = Alike-timeout x in (h, ap (or_else y.timeout) k)

  AllAlike-timeout :
      {es fs : Errors}
      → AllAlike es fs
      → (find_as_any is_deadline es ≡ find_as_any is_deadline fs)
        × (find_as_any as_net_error es ≡ find_as_any as_net_error fs)
  AllAlike-timeout AllAlike.nobody = (refl, refl)
  AllAlike-timeout (AllAlike.both x xs) =
      let (h, k) = Alike-timeout x in
      let (m, n) = AllAlike-timeout xs in (λ i. or_else (h i) (m i), λ i. or_else (k i) (n i))

is_timeout-Alike : {e f : Error} → Alike e f → is_timeout_error e ≡ is_timeout_error f
unfolding is_timeout_error
is_timeout-Alike x = let (h, k) = Alike-timeout x in rw (h, k) refl

module _ (fmt : Formats) where
  mutual
    unfolding error_text error_texts

    same_text : {e f : Error} → Alike e f → error_text fmt e ≡ error_text fmt f
    same_text (Alike.same e) = refl
    same_text (Alike.wrap s args x) = rw (same_text x) refl
    same_text (Alike.join xs) = ap fmt.lines (same_texts xs)
    same_text (Alike.mark_permanent x) = same_text x
    same_text (Alike.mark_transport x) = same_text x
    same_text (Alike.deliver i t n k r q x) = rw (same_text x) refl
    same_text (Alike.operate o t x) = rw (same_text x, is_timeout-Alike x) refl
    same_text (Alike.redact e f text h k) = refl
    same_text (Alike.wrap_foreign y x) = refl

    same_texts : {es fs : Errors} → AllAlike es fs → error_texts fmt es ≡ error_texts fmt fs
    same_texts AllAlike.nobody = refl
    same_texts (AllAlike.both x xs) = rw (same_text x, same_texts xs) refl

  -- Neither the result of a delivery, with the body of its response, nor the cause that a redacted
  -- error hides has an influence on the text of an error, in whatever chain of errors they are.
  error_text-Alike : {e f : Error} → Alike e f → error_text fmt e ≡ error_text fmt f
  error_text-Alike x = same_text x
