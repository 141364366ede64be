-- ===== src/Targets/Email/Session/Credentials.antt =====
-- targets/email/email.go, sendSMTP: the password is sent only after a TLS handshake with the server.
use mathlib.Core.List.{append-nil, append_assoc}
use notifykit.Base.{
  ◌≡◌, refl, sym, ap, subst, ◌∙◌, ◌⊎◌, inl, inr, Bool, true, false, Option, none, some, List, [],
  ◌∷◌, ◌++◌, All, All-append,
}
use notifykit.Text.{Text, bytes}
use notifykit.Text.Strings.{equal_fold, join_host_port, itoa}
use notifykit.Notify.Result.{Result, ok, err}
use notifykit.Targets.Email.Config.{Email, TlsMode, plaintext, apply_defaults}
use notifykit.Targets.Email.Mailbox.{Mail, envelope_recipients, is_plaintext, validate_smtp_config}
use notifykit.Targets.Email.Mailbox.Valid.{validate_smtp_config_iff}
use notifykit.Targets.Email.Message.{build_email}
use notifykit.Targets.Email.Proxy.{Proxies, ProxyUrl}
use notifykit.Targets.Email.Wire.{
  Command, tls_handshake, greeting, hello, start_tls, auth, History, Peer,
}
use notifykit.Targets.Email.Wire.Runs.{Outcome, IsClosing, Stops, is_unchecked, Conducts}
use notifykit.Targets.Email.Session.{uses_start_tls, uses_implicit_tls, send_smtp}
use notifykit.Targets.Email.Session.Plan.{
  only_if, route_plan, route, connection_plan, recipient_calls, transfer_plan, login_plan,
  session_plan, delivery_plan,
}
use notifykit.Targets.Email.Session.Delivery.{outcome_of, send_smtp-Conducts}

abbrev is_auth : Command → Bool
is_auth (auth user pass host) = true
is_auth c = false

module _ (host : Text) (skip : Bool) where
  -- A handshake that secures the connection to a host.
  abbrev pub IsSecuring : Command → Type 0
  IsSecuring c = (c ≡ tls_handshake host skip) ⊎ (c ≡ start_tls host skip)

  module _ (peer : Peer) where
    -- Among the calls there is a handshake that succeeded.
    abbrev pub IsSecured : History → Type 0
    IsSecured h =
        (before : History) × (after : History) × (c : Command) × (h ≡ before ++ (c ∷ after))
        × IsSecuring c
        × (peer.reply before c ≡ none)

    abbrev pub Guards : History → Type 0
    Guards h =
        (before after : History) (user pass server : Text)
        → h ≡ before ++ (auth user pass server ∷ after)
        → IsSecured before

    -- A list with one more element, split at an element.
    split_last :
        (h before after : History) (c a : Command)
        → h ++ (c ∷ []) ≡ before ++ (a ∷ after)
        → ((h ≡ before) × (c ≡ a)) ⊎ ((rest : History) × (h ≡ before ++ (a ∷ rest)))
    split_last [] [] after c a e = inl (refl, cc)
    split_last [] (b ∷ []) after c a e = cc
    split_last [] (b ∷ b' ∷ before) after c a e = cc
    split_last (x ∷ h) [] after c a e = inr (h, cc)
    split_last (x ∷ h) (b ∷ before) after c a e = elim (split_last h before after c a cc) [
      | inl (same, last) ↦ inl (cc, last)
      | inr (rest, same) ↦ inr (rest, cc)
    ]

    IsSecured-before : (h : History) (c : Command) → IsSecured h → IsSecured (h ++ (c ∷ []))
    IsSecured-before h c (before, after, s, e, k, r) = (
      before,
      after ++ (c ∷ []),
      s,
      ap (λ x. x ++ (c ∷ [])) e ∙ append_assoc before (s ∷ after) _,
      k,
      r,
    )

    other-Guards :
        (h : History) (c : Command) → is_auth c ≡ false → Guards h → Guards (h ++ (c ∷ []))
    other-Guards h c n g before after user pass server e = elim (split_last h before after c _ e) [
      | inl (same, last) ↦ let a : is_auth c ≡ true = ap is_auth last in cc
      | inr (rest, same) ↦ g before rest user pass server same
    ]

    secured-Guards : (h : History) (c : Command) → IsSecured h → Guards h → Guards (h ++ (c ∷ []))
    secured-Guards h c s g before after user pass server e =
        elim (split_last h before after c _ e) [
          | inl (same, last) ↦ subst IsSecured same s
          | inr (rest, same) ↦ g before rest user pass server same
        ]

    closing-Guards :
        (closing h : History) → All IsClosing closing → Guards h → Guards (h ++ closing)
    closing-Guards [] h k g = subst Guards (sym (append-nil h)) g
    closing-Guards (c ∷ cs) h (k, ks) g =
        subst Guards (append_assoc h (c ∷ []) cs)
          (closing-Guards cs (h ++ (c ∷ [])) ks (other-Guards h c (closing k) g))
      where
        closing : {c : Command} → IsClosing c → is_auth c ≡ false
        closing (inl e) = ap is_auth e
        closing (inr e) = ap is_auth e

    Stops-Guards : (h : History) (out : Outcome) → Stops h out → Guards h → Guards out.1
    Stops-Guards h (r, h') (failed, (closing, e, k)) g =
        subst Guards (sym e) (closing-Guards closing h k g)

    -- Once the connection is secure, everything is guarded.
    secured-Conducts :
        (plan h : History) (out : Outcome)
        → Conducts peer h plan out
        → IsSecured h
        → Guards h
        → Guards out.1
    secured-Conducts [] h out (inl e) s g = subst (λ o. Guards o.1) (sym e) g
    secured-Conducts [] h out (inr stops) s g = Stops-Guards h out stops g
    secured-Conducts (c ∷ plan) h out (inl stops) s g = Stops-Guards h out stops g
    secured-Conducts (c ∷ plan) h out (inr (inl stops)) s g =
        Stops-Guards _ out stops (secured-Guards h c s g)
    secured-Conducts (c ∷ plan) h out (inr (inr (passed, rest))) s g =
        secured-Conducts plan _ out rest (IsSecured-before h c s) (secured-Guards h c s g)

    -- A plan that authenticates only after a handshake.
    abbrev IsGuarded : History → Type 0
    IsGuarded [] = Unit
    IsGuarded (c ∷ plan) = IsSecuring c ⊎ ((is_auth c ≡ false) × IsGuarded plan)

    securing_call : {c : Command} → IsSecuring c → (is_auth c ≡ false) × (is_unchecked c ≡ false)
    securing_call (inl e) = (ap is_auth e, ap is_unchecked e)
    securing_call (inr e) = (ap is_auth e, ap is_unchecked e)

    guarded-Conducts :
        (plan h : History) (out : Outcome)
        → Conducts peer h plan out
        → IsGuarded plan
        → Guards h
        → Guards out.1
    guarded-Conducts [] h out (inl e) p g = subst (λ o. Guards o.1) (sym e) g
    guarded-Conducts [] h out (inr stops) p g = Stops-Guards h out stops g
    guarded-Conducts (c ∷ plan) h out (inl stops) p g = Stops-Guards h out stops g
    guarded-Conducts (c ∷ plan) h out (inr (inl stops)) (inl k) g =
        Stops-Guards _ out stops (other-Guards h c (securing_call k).0 g)
    guarded-Conducts (c ∷ plan) h out (inr (inl stops)) (inr (n, p)) g =
        Stops-Guards _ out stops (other-Guards h c n g)
    guarded-Conducts (c ∷ plan) h out (inr (inr (passed, rest))) (inl k) g =
        secured-Conducts plan _ out rest (h, [], c, refl, k, passed (securing_call k).1)
          (other-Guards h c (securing_call k).0 g)
    guarded-Conducts (c ∷ plan) h out (inr (inr (passed, rest))) (inr (n, p)) g =
        guarded-Conducts plan _ out rest p (other-Guards h c n g)

    abbrev IsOther : Command → Type 0
    IsOther c = is_auth c ≡ false

    others-IsGuarded : (p q : History) → All IsOther p → IsGuarded q → IsGuarded (p ++ q)
    others-IsGuarded [] q k g = g
    others-IsGuarded (c ∷ p) q (k, ks) g = inr (k, others-IsGuarded p q ks g)

    IsGuarded-others : (p q : History) → IsGuarded p → All IsOther q → IsGuarded (p ++ q)
    IsGuarded-others [] [] g k = tt
    IsGuarded-others [] (c ∷ q) g (k, ks) = inr (k, IsGuarded-others [] q tt ks)
    IsGuarded-others (c ∷ p) q (inl s) k = inl s
    IsGuarded-others (c ∷ p) q (inr (n, g)) k = inr (n, IsGuarded-others p q g k)

    only_if-others : (b : Bool) (c : Command) → IsOther c → All IsOther (only_if b c)
    only_if-others true c k = (k, tt)
    only_if-others false c k = tt

    -- The part of a plan from the handshakes on, for a mode that has no credentials without them.
    handshakes-IsGuarded :
        (mode : TlsMode) (login transfer : History)
        → (mode ≡ plaintext → login ≡ [])
        → All IsOther transfer
        → IsGuarded (
            only_if (uses_implicit_tls mode) (tls_handshake host skip)
            ++ (greeting host
                ∷ hello (bytes "localhost")
                ∷ (only_if (uses_start_tls mode) (start_tls host skip) ++ (login ++ transfer))))
    handshakes-IsGuarded TlsMode.unset login transfer k o = inr (refl, inr (refl, inl (inr refl)))
    handshakes-IsGuarded TlsMode.required login transfer k o =
        inr (refl, inr (refl, inl (inr refl)))
    handshakes-IsGuarded TlsMode.implicit login transfer k o = inl (inl refl)
    handshakes-IsGuarded TlsMode.plaintext login transfer k o =
        inr (refl, inr (refl, rw (k refl) (IsGuarded-others [] transfer tt o)))
    handshakes-IsGuarded (TlsMode.unknown s) login transfer k o =
        inr (refl, inr (refl, inl (inr refl)))

module _ (mail : Mail) (proxies : Proxies) (peer : Peer) {Data : Type 0} (t : Email Data) where
  connection-others : All (λ c. is_auth c ≡ false) (connection_plan mail proxies t)
  connection-others =
      let address = join_host_port t.host (itoa t.port) in go (route mail proxies t address) address
    where
      go :
          (found : Result (Option ProxyUrl)) (address : Text)
          → All (λ c. is_auth c ≡ false) (route_plan mail proxies found address t.dial_timeout)
      go (err e) address = tt
      go (ok none) address = (refl, tt)
      go (ok (some proxy)) address = (
        refl,
        All-append (λ c. is_auth c ≡ false)
            (only_if (equal_fold proxy.scheme (bytes "https")) (tls_handshake proxy.hostname false))
            _ (only_if-others t.host true peer _ _ refl) (refl, (refl, (refl, (refl, tt)))),
      )

  transfer-others : (msg : Text) → All (λ c. is_auth c ≡ false) (transfer_plan mail proxies t msg)
  transfer-others msg = (
    refl,
    All-append (λ c. is_auth c ≡ false) (recipient_calls mail proxies t _) _
        (go (envelope_recipients t.recipients t.cc_recipients t.bcc_recipients))
        (refl, (refl, (refl, tt))),
  )
    where
      go : (rs : List Text) → All (λ c. is_auth c ≡ false) (recipient_calls mail proxies t rs)
      go [] = tt
      go (r ∷ rs) = (refl, go rs)

  plan-IsGuarded :
      (subject body : Text)
      → validate_smtp_config mail t ≡ ok tt
      → IsGuarded t.host t.skip_tls_verify peer (delivery_plan mail proxies t subject body)
  unfolding delivery_plan
  plan-IsGuarded subject body v =
      others-IsGuarded t.host t.skip_tls_verify peer (connection_plan mail proxies t) _
        connection-others
        (IsGuarded-others t.host t.skip_tls_verify peer
          (session_plan mail proxies t (build_email mail t subject body)) _
          (inr (
            refl,
            handshakes-IsGuarded t.host t.skip_tls_verify peer t.tls_mode _ _ no_login
                (transfer-others _),
          ))
          (refl, tt))
    where
      no_login : t.tls_mode ≡ plaintext → login_plan mail proxies t ≡ []
      no_login p = elim ((validate_smtp_config_iff mail t).0 v).credentials [
        | inl other ↦ let q : is_plaintext t.tls_mode ≡ true = ap is_plaintext p in cc
        | inr (user, pass) ↦ rw (user, pass) refl
      ]

-- With a valid configuration, a delivery hands over credentials only after a TLS handshake with the
-- target's host, by its name and as its verification is set, that has succeeded.
pub send_smtp-IsSecured :
    (mail : Mail) (proxies : Proxies) (peer : Peer) {Data : Type 0} (t : Email Data)
    (subject body : Text)
    → validate_smtp_config mail (apply_defaults t) ≡ ok tt
    → (before after : History) (user pass server : Text)
    → (send_smtp mail proxies peer t subject body).1 ≡ before ++ (auth user pass server ∷ after)
    → IsSecured t.host t.skip_tls_verify peer before
unfolding apply_defaults
send_smtp-IsSecured mail proxies peer t subject body v =
    guarded-Conducts t.host t.skip_tls_verify peer _ []
      (outcome_of mail proxies peer (send_smtp mail proxies peer t subject body))
      (send_smtp-Conducts mail proxies peer t subject body)
      (plan-IsGuarded mail proxies peer (apply_defaults t) subject body v) (no_calls)
  where
    no_calls : Guards t.host t.skip_tls_verify peer []
    no_calls [] after user pass server e = cc
    no_calls (b ∷ before) after user pass server e = cc
