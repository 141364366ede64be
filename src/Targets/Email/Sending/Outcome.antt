-- ===== src/Targets/Email/Sending/Outcome.antt =====
-- targets/email/email.go, SendResult: the ways in which a send ends.
use notifykit.Base.{
  ◌≡◌, refl, sym, ap, subst, ◌∙◌, ◌⊎◌, inl, inr, true, false, Option, none, some, [], Option-cases,
  Bool-cases,
}
use notifykit.Text.{Text, bytes}
use notifykit.Header.{contains_newline}
use notifykit.Notify.Error.{Error, DeliveryResult}
use notifykit.Notify.Error.Marks.{is_permanent, is_transport, permanent}
use notifykit.Notify.Error.MarkLaws.{permanent-transport}
use notifykit.Notify.Result.{Result, ok, err, Result-cases}
use notifykit.Targets.Email.Config.{Email, apply_defaults}
use notifykit.Targets.Email.Config.Defaults.{apply_defaults_idem}
use notifykit.Targets.Email.Mailbox.{Mail, validate_header_value, validate_smtp_config}
use notifykit.Targets.Email.Proxy.{Proxies}
use notifykit.Targets.Email.Classify.{classify_smtp_error}
use notifykit.Targets.Email.Classify.Marks.{IsTransient, IsMarked, classify_smtp_error-IsMarked}
use notifykit.Targets.Email.Wire.{History, Peer}
use notifykit.Targets.Email.Session.{send_smtp}
use notifykit.Targets.Email.Session.Plan.{delivery_plan}
use notifykit.Targets.Email.Session.Delivery.{send_smtp-all}
use notifykit.Targets.Email.Sending.{
  Rendered, render, prepare, validate, send_prepared, report, status_of, send_result,
}

abbrev subject_of : Result Rendered → Text
subject_of (ok r) = r.subject
subject_of (err e) = []

-- A rendered subject is one line.
subject-IsLine :
    {Data : Type 0} (t : Email Data) (values : Text → Data)
    → contains_newline (subject_of (render t values)) ≡ false
unfolding render validate_header_value contains_newline
subject-IsLine t values = elim (Option-cases t.template) [
  | inl h ↦ rw h refl
  | inr (template, h) ↦ elim (Option-cases t.subject_tmpl) [
    | inl k ↦ rw (h, k) refl
    | inr (subject_tmpl, k) ↦ elim (Result-cases (subject_tmpl (values []))) [
      | inl (e, s) ↦ rw (h, k, s) refl
      | inr (subject, s) ↦ elim (Bool-cases (contains_newline subject)) [
        | inl l ↦ rw (h, k, s, l) refl
        | inr l ↦ elim (Result-cases (template (values subject))) [
          | inl (e, b) ↦ rw (h, k, s, l, b) refl
          | inr (body, b) ↦ rw (h, k, s, l, b) l
        ]
      ]
    ]
  ]
]

module _ (mail : Mail) where
  -- Validate tells whether SendResult gets as far as the connection.
  prepare-cases :
      {Data : Type 0} (t : Email Data) (values : Text → Data)
      → ((e : Error) × (validate mail (some t) values ≡ err e)
          × (prepare mail (apply_defaults t) values ≡ err e))
        ⊎ ((r : Rendered) × (validate mail (some t) values ≡ ok tt)
            × (prepare mail (apply_defaults t) values ≡ ok r)
            × (render (apply_defaults t) values ≡ ok r)
            × (validate_smtp_config mail (apply_defaults t) ≡ ok tt))
  unfolding validate prepare
  prepare-cases t values = elim (Result-cases (render (apply_defaults t) values)) [
    | inl (e, h) ↦ inl (e, rw h refl, rw h refl)
    | inr (r, h) ↦ elim (Result-cases (validate_smtp_config mail (apply_defaults t))) [
      | inl (e, k) ↦ inl (e, rw (h, k) refl, rw (h, k) refl)
      | inr (tt, k) ↦ inr (r, rw (h, k) refl, rw (h, k) refl, h, k)
    ]
  ]

-- A marked error is not nil.
marked-failed : {P : Type 0} (o : Option Error) → IsMarked P o → status_of o ≡ bytes "failed"
unfolding is_transport is_permanent
marked-failed none (inl (h, k, p)) = cc
marked-failed none (inr (h, k, p)) = cc
marked-failed (some e) m = refl

failed_status :
    (e : Error)
    → ((is_permanent (some e) ≡ true) × (classify_smtp_error (some e) ≡ some e))
      ⊎ ((is_permanent (some e) ≡ false) × IsMarked (IsTransient e) (classify_smtp_error (some e)))
    → status_of (classify_smtp_error (some e)) ≡ bytes "failed"
failed_status e (inl (p, same)) = ap status_of same
failed_status e (inr (u, m)) = marked-failed (classify_smtp_error (some e)) m

module _ (mail : Mail) (proxies : Proxies) (peer : Peer) {Data : Type 0} (t : Email Data)
    (values : Text → Data) (elapsed : Text) where
  -- The outcome of a delivery that was started. A failure is that of sendSMTP, `e`.
  abbrev pub IsSentOrFailed : Rendered → DeliveryResult × Option Error × History → Type 0
  IsSentOrFailed r out =
      ((out.0.status ≡ bytes "sent")
        × (out.1 ≡ none)
        × (out.2 ≡ delivery_plan mail proxies (apply_defaults t) r.subject r.body))
      ⊎ ((out.0.status ≡ bytes "failed")
          × ((e : Error) × (send_smtp mail proxies peer (apply_defaults t) r.subject r.body
                ≡ (some e, out.2))
              × (((is_permanent (some e) ≡ true) × (out.1 ≡ some e))
                  ⊎ ((is_permanent (some e) ≡ false) × IsMarked (IsTransient e) out.1))))

  sent_or_failed :
      (r : Rendered)
      → IsSentOrFailed r (
          let (result, calls) = send_smtp mail proxies peer (apply_defaults t) r.subject r.body in
          report elapsed (classify_smtp_error result, calls))
  unfolding classify_smtp_error
  sent_or_failed r =
      elim (Option-cases (send_smtp mail proxies peer (apply_defaults t) r.subject r.body).0) [
        | inl h ↦ inl (
          ap status_of (classified h),
          classified h,
          send_smtp-all mail proxies peer (apply_defaults t) r.subject r.body h
              ∙ ap (λ x. delivery_plan mail proxies x r.subject r.body) (apply_defaults_idem t),
        )
        | inr (e, h) ↦ inr (
            let m = classify_smtp_error-IsMarked e in
            let all : send_smtp mail proxies peer (apply_defaults t) r.subject r.body
                ≡ (some e, (send_smtp mail proxies peer (apply_defaults t) r.subject r.body).1) =
              λ i. (h i, (send_smtp mail proxies peer (apply_defaults t) r.subject r.body).1) in
            (
              ap (λ x. status_of (classify_smtp_error x)) h ∙ failed_status e m,
              (
                e,
                all,
                elim m [
                  | inl (p, kept) ↦ inl (p, ap classify_smtp_error h ∙ kept)
                  | inr (u, marks) ↦
                      inr
                        (u, subst (IsMarked (IsTransient e)) (sym (ap classify_smtp_error h)) marks)
                ],
              ),
            ))
      ]
    where
      classified :
          (send_smtp mail proxies peer (apply_defaults t) r.subject r.body).0 ≡ none
          → classify_smtp_error (send_smtp mail proxies peer (apply_defaults t) r.subject r.body).0
            ≡ none
      classified h = ap classify_smtp_error h

  -- Either Validate finds an error and no call is made, or the delivery was started.
  abbrev pub IsEnding : DeliveryResult × Option Error × History → Type 0
  IsEnding out =
      ((e : Error) × (validate mail (some t) values ≡ err e)
        × (out.0.status ≡ bytes "failed")
        × (out.1 ≡ permanent (some e))
        × (is_permanent out.1 ≡ true)
        × (out.2 ≡ []))
      ⊎ ((r : Rendered) × (validate mail (some t) values ≡ ok tt)
          × (render (apply_defaults t) values ≡ ok r)
          × (contains_newline r.subject ≡ false)
          × IsSentOrFailed r out)

  -- SendResult of a target, in a context that is not done, makes no call where Validate finds an error,
  -- and returns that, with the permanent mark. Where Validate finds none, the target renders a subject
  -- of one line and a body, and SendResult either reports "sent", has no error, and has made all the
  -- calls of the plan; or sendSMTP fails, and SendResult reports "failed" with the error of sendSMTP
  -- as it is if that is permanent, and otherwise with one that is marked for transport if the error of
  -- sendSMTP is transient, and permanent if it is not.
  pub send_result-IsEnding :
      IsEnding (send_result mail proxies peer false none (some t) values elapsed)
  unfolding send_result send_prepared
  send_result-IsEnding = elim (prepare-cases mail t values) [
    | inl (e, v, p) ↦
        rw (p, send_prepared)
          (let m = permanent-transport e in
            inl (
              e,
              v,
              marked-failed {P = ⊥} (permanent (some e)) (inr (m.1, m.0, λ x. x)),
              refl,
              m.0,
              refl,
            ))
    | inr (r, v, p, d, c) ↦
        rw (p, send_prepared)
          (inr (
            r,
            v,
            d,
            ap contains_newline (sym (ap subject_of d)) ∙ subject-IsLine (apply_defaults t) values,
            sent_or_failed r,
          ))
  ]
