-- ===== src/Targets/Email/Session/Delivery.antt =====
-- targets/email/email.go, sendSMTP: the calls of a whole delivery.
use mathlib.Core.List.{append-nil, append_assoc}
use notifykit.Base.{◌≡◌, refl, sym, ap, ◌∙◌, inl, inr, Option, none, [], ◌∷◌, ◌++◌, Option-cases}
use notifykit.Text.{Text}
use notifykit.Notify.Error.{Error}
use notifykit.Notify.Result.{Result, ok, check}
use notifykit.Targets.Email.Config.{Email, apply_defaults}
use notifykit.Targets.Email.Mailbox.{Mail}
use notifykit.Targets.Email.Proxy.{Proxies}
use notifykit.Targets.Email.Wire.{History, Peer}
use notifykit.Targets.Email.Wire.Runs.{Outcome, Stops, Conducts}
use notifykit.Targets.Email.Session.{or_context, send_smtp}
use notifykit.Targets.Email.Session.Plan.{delivery_plan}
use notifykit.Targets.Email.Session.Runs.{deliver-Does}

module _ (mail : Mail) (proxies : Proxies) (peer : Peer) where
  -- The outcome, as that of a session, of a function that returns only an error.
  abbrev pub outcome_of : Option Error × History → Outcome
  outcome_of (result, calls) = (check result, calls)

  or_context-Stops :
      (h : History) (r : Result (Unit {0})) (h' : History)
      → Stops h (r, h')
      → Stops h (outcome_of (or_context mail proxies peer (r, h')))
  or_context-Stops h r h' ((e, failed), closed) = elim (Option-cases (peer.ctx_err h')) [
    | inl running ↦ rw (failed, or_context, running) ((e, refl), closed)
    | inr (c, ended) ↦ rw (failed, or_context, ended) ((c, refl), closed)
  ]

  or_context-Conducts :
      (plan h : History) (out : Outcome)
      → Conducts peer h plan out
      → Conducts peer h plan (outcome_of (or_context mail proxies peer out))
  or_context-Conducts [] h (r, h') (inl e) =
      inl (ap (λ o. outcome_of (or_context mail proxies peer o)) e)
  or_context-Conducts [] h (r, h') (inr s) = inr (or_context-Stops h r h' s)
  or_context-Conducts (c ∷ plan) h (r, h') (inl s) = inl (or_context-Stops h r h' s)
  or_context-Conducts (c ∷ plan) h (r, h') (inr (inl s)) = inr (inl (or_context-Stops _ r h' s))
  or_context-Conducts (c ∷ plan) h (r, h') (inr (inr (passed, s))) =
      inr (inr (passed, or_context-Conducts plan _ (r, h') s))

  -- A delivery makes the calls of its plan in their order: from the connection, through the proxy if
  -- there is one, to the closing of it. Each call has succeeded before the next is made, but for the
  -- deadlines, and the delivery succeeds with the last; else it fails, and only closes things then.
  pub send_smtp-Conducts :
      {Data : Type 0} (t : Email Data) (subject body : Text)
      → Conducts peer []
          (delivery_plan mail proxies (apply_defaults t) subject body)
          (outcome_of (send_smtp mail proxies peer t subject body))
  unfolding send_smtp
  send_smtp-Conducts t subject body =
      or_context-Conducts _ [] _
        ((deliver-Does mail proxies peer (apply_defaults t) subject body).runs [])

  -- After a success, all of a plan was done.
  Conducts-all :
      (plan h : History) (out : Outcome)
      → Conducts peer h plan out
      → out.0 ≡ ok tt
      → out.1 ≡ h ++ plan
  Conducts-all [] h (r, h') (inl e) k = ap (λ o. o.1) e ∙ sym (append-nil h)
  Conducts-all [] h (r, h') (inr ((e, failed), closed)) k = cc
  Conducts-all (c ∷ plan) h (r, h') (inl ((e, failed), closed)) k = cc
  Conducts-all (c ∷ plan) h (r, h') (inr (inl ((e, failed), closed))) k = cc
  Conducts-all (c ∷ plan) h (r, h') (inr (inr (passed, s))) k =
      Conducts-all plan (h ++ (c ∷ [])) (r, h') s k ∙ append_assoc h (c ∷ []) plan

  -- A delivery without an error has made all the calls of its plan, and no others: the sender, each
  -- recipient, those of the copies as well, and the whole message were accepted.
  pub send_smtp-all :
      {Data : Type 0} (t : Email Data) (subject body : Text)
      → (send_smtp mail proxies peer t subject body).0 ≡ none
      → (send_smtp mail proxies peer t subject body).1
        ≡ delivery_plan mail proxies (apply_defaults t) subject body
  send_smtp-all t subject body h =
      Conducts-all _ [] (outcome_of (send_smtp mail proxies peer t subject body))
        (send_smtp-Conducts t subject body) (ap check h)
