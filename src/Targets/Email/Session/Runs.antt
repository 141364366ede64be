-- ===== src/Targets/Email/Session/Runs.antt =====
-- targets/email: a delivery makes just the calls of its plan.
use notifykit.Base.{
  refl, inl, inr, ℤ, Bool, true, false, ◌&&◌, ◌||◌, none, some, List, [], ◌∷◌, is_empty,
  if◌then◌else◌, Bool-cases, leb_ℤ, ltb_ℤ, pos,
}
use notifykit.Text.{Text, bytes}
use notifykit.Text.Strings.{itoa, join_host_port, equal_fold}
use notifykit.Notify.Error.{Error}
use notifykit.Notify.Result.{ok, err, Result-cases}
use notifykit.Targets.Email.Config.{Email}
use notifykit.Targets.Email.Mailbox.{Mail, parse_mailbox, envelope_recipients}
use notifykit.Targets.Email.Message.{build_email}
use notifykit.Targets.Email.Proxy.{
  Proxies, ProxyUrl, resolve_proxy, dial_proxy, proxy_dial_address, connect_text, open_tunnel,
  proxy_handshake, accept_response,
}
use notifykit.Targets.Email.Wire.{
  Command, dial, set_deadline, clear_deadline, connect_request, connect_response, tls_handshake,
  greeting, hello, start_tls, auth, mail_from, rcpt_to, data_start, data_write, data_close,
  close_conn, History, Peer, ◌>>=◌, pure, fail, lift, perform,
}
use notifykit.Targets.Email.Wire.Runs.{
  Conducts, Does, fails, bind-Does, wrapping-Does, perform-Does, check_context-Does, attempt-Does,
  and_close-Does, or_close-Does, fail-Does, pure-Does,
}
use notifykit.Targets.Email.Session.{
  uses_start_tls, uses_implicit_tls, no_start_tls, dial_smtp_connection, smtp_auth, send_recipients,
  write_message, smtp_send, secure_connection, upgrade_connection, converse, deliver_message,
}
use notifykit.Targets.Email.Session.Plan.{
  only_if, address_or_empty, tunnel_plan, proxy_plan, route_plan, route, recipient_calls,
  transfer_plan, login_plan, session_plan, delivery_plan,
}

module _ (mail : Mail) (proxies : Proxies) (peer : Peer) where
  proxy_handshake-Does :
      (proxy : ProxyUrl)
      → Does peer
          (only_if (equal_fold proxy.scheme (bytes "https")) (tls_handshake proxy.hostname false))
          (proxy_handshake proxies peer proxy)
  unfolding proxy_handshake
  proxy_handshake-Does proxy = elim (Bool-cases (equal_fold proxy.scheme (bytes "https"))) [
    | inl https ↦
        rw https (wrapping-Does peer _ (perform-Does peer (tls_handshake proxy.hostname false)))
    | inr other ↦
        rw other (plain (is_empty proxy.scheme || equal_fold proxy.scheme (bytes "http")) _)
  ]
    where
      plain : (b : Bool) (e : Error) → Does peer [] (if b then pure tt else fail e)
      plain true e = pure-Does peer
      plain false e = fail-Does peer [] e

  accept_response-Does : Does peer [] (accept_response proxies peer)
  unfolding accept_response
  accept_response-Does = record {
    runs = λ h. go h (ltb_ℤ (peer.response h).0 (pos 200) || leb_ℤ (pos 300) (peer.response h).0) _;
  }
    where
      go :
          (h : History) (b : Bool) (e : Error)
          → Conducts peer h [] (if b then (err e, h) else (ok tt, h))
      go h true e = fails peer [] h e
      go h false e = inl refl

  open_tunnel-Does :
      (proxy : ProxyUrl) (address : Text)
      → Does peer (tunnel_plan mail proxies proxy address) (open_tunnel proxies peer proxy address)
  unfolding open_tunnel
  open_tunnel-Does proxy address = bind-Does peer _ (proxy_handshake-Does proxy) (
      bind-Does peer (set_deadline ∷ []) (attempt-Does peer set_deadline refl) (
        bind-Does peer (connect_request (connect_text proxies proxy address) ∷ [])
          (wrapping-Does peer _
            (perform-Does peer (connect_request (connect_text proxies proxy address))))
          (bind-Does peer (connect_response ∷ [])
            (wrapping-Does peer _ (perform-Does peer connect_response))
            (bind-Does peer [] accept_response-Does (attempt-Does peer clear_deadline refl)))))

  dial_proxy-Does :
      (proxy : ProxyUrl) (address : Text) (timeout : ℤ)
      → Does peer
          (proxy_plan mail proxies proxy address timeout)
          (dial_proxy proxies peer proxy address timeout)
  unfolding dial_proxy
  dial_proxy-Does proxy address timeout = elim (Bool-cases (is_empty proxy.host)) [
    | inl nowhere ↦ rw nowhere (fail-Does peer _ _)
    | inr somewhere ↦ elim (Result-cases (proxy_dial_address proxy)) [
      | inl (e, bad) ↦ rw (somewhere, bad) (fail-Does peer _ e)
      | inr (a, good) ↦
          rw (somewhere, good)
            (bind-Does peer (dial a timeout ∷ [])
              (wrapping-Does peer _ (perform-Does peer (dial a timeout)))
              (or_close-Does peer close_conn (inr refl) (open_tunnel-Does proxy address)))
    ]
  ]

  module _ {Data : Type 0} (t : Email Data) where
    dial-Does :
        (address : Text)
        → Does peer
            (route_plan mail proxies (route mail proxies t address) address t.dial_timeout)
            (dial_smtp_connection mail proxies peer t address)
    unfolding dial_smtp_connection
    dial-Does address = elim (Bool-cases t.proxy_from_environment) [
      | inr direct ↦ rw direct (perform-Does peer (dial address t.dial_timeout))
      | inl looked_up ↦ elim (Result-cases (resolve_proxy proxies address t.tls_mode)) [
        | inl (e, bad) ↦ rw (looked_up, bad) (fail-Does peer [] e)
        | inr (none, no_proxy) ↦
            rw (looked_up, no_proxy) (perform-Does peer (dial address t.dial_timeout))
        | inr (some proxy, found) ↦
            rw (looked_up, found) (dial_proxy-Does proxy address t.dial_timeout)
      ]
    ]

    -- A call with the address of a mailbox, made if that can be parsed.
    addressed :
        (value : Text) (call : Text → Command)
        → Does peer
            (call (address_or_empty (parse_mailbox mail value)) ∷ [])
            (lift (parse_mailbox mail value) >>= λ mailbox. perform peer (call mailbox.address))
    addressed value call = elim (Result-cases (parse_mailbox mail value)) [
      | inl (e, bad) ↦ rw bad (fail-Does peer _ e)
      | inr (m, good) ↦ rw good (perform-Does peer (call m.address))
    ]

    send_recipients-Does :
        (rs : List Text)
        → Does peer (recipient_calls mail proxies t rs) (send_recipients mail proxies peer t rs)
    unfolding send_recipients
    send_recipients-Does [] = pure-Does peer
    send_recipients-Does (r ∷ rs) =
        bind-Does peer (rcpt_to (address_or_empty (parse_mailbox mail r)) ∷ [])
          (wrapping-Does peer _ (addressed r rcpt_to)) (send_recipients-Does rs)

    write_message-Does :
        (msg : Text) → Does peer (data_write msg ∷ []) (write_message mail proxies peer t msg)
    unfolding write_message
    write_message-Does msg =
        or_close-Does peer data_close (inl refl) (perform-Does peer (data_write msg))

    transfer-Does :
        (msg : Text)
        → Does peer (transfer_plan mail proxies t msg) (smtp_send mail proxies peer t msg)
    unfolding smtp_send
    transfer-Does msg =
        bind-Does peer (mail_from (address_or_empty (parse_mailbox mail t.sender)) ∷ [])
          (wrapping-Does peer _ (addressed t.sender mail_from))
          (bind-Does peer _
            (send_recipients-Does
              (envelope_recipients t.recipients t.cc_recipients t.bcc_recipients))
            (bind-Does peer (data_start ∷ []) (wrapping-Does peer _ (perform-Does peer data_start))
              (bind-Does peer (data_write msg ∷ []) (wrapping-Does peer _ (write_message-Does msg))
                (wrapping-Does peer _ (perform-Does peer data_close)))))

    secure-Does :
        Does peer
          (only_if (uses_implicit_tls t.tls_mode) (tls_handshake t.host t.skip_tls_verify))
          (secure_connection mail proxies peer t)
    unfolding secure_connection
    secure-Does = elim (Bool-cases (uses_implicit_tls t.tls_mode)) [
      | inl implicitly ↦
          rw implicitly
            (wrapping-Does peer _ (perform-Does peer (tls_handshake t.host t.skip_tls_verify)))
      | inr other ↦ rw other (pure-Does peer)
    ]

    login-Does : Does peer (login_plan mail proxies t) (smtp_auth mail proxies peer t)
    unfolding smtp_auth
    login-Does = elim (Bool-cases (is_empty t.user && is_empty t.pass)) [
      | inl unnamed ↦ rw unnamed (pure-Does peer)
      | inr named ↦ rw named (perform-Does peer (auth t.user t.pass t.host))
    ]

    upgrade-Does :
        Does peer
          (only_if (uses_start_tls t.tls_mode) (start_tls t.host t.skip_tls_verify))
          (upgrade_connection mail proxies peer t)
    unfolding upgrade_connection
    upgrade-Does = record {
      runs = λ h. elim (Bool-cases (uses_start_tls t.tls_mode)) [
        | inr other ↦ rw other (inl refl)
        | inl wanted ↦ elim (Bool-cases (peer.has_start_tls h)) [
          | inl offered ↦
              rw (wanted, offered)
                ((wrapping-Does peer _
                    (perform-Does peer (start_tls t.host t.skip_tls_verify))).runs
                  h)
          | inr missing ↦
              rw (wanted, missing)
                (fails peer (start_tls t.host t.skip_tls_verify ∷ []) h no_start_tls)
        ]
      ];
    }

    converse-Does :
        (msg : Text)
        → Does peer (session_plan mail proxies t msg) (converse mail proxies peer t msg)
    unfolding converse
    converse-Does msg =
        bind-Does peer (set_deadline ∷ []) (wrapping-Does peer _ (perform-Does peer set_deadline)) (
          bind-Does peer _ secure-Does (
            bind-Does peer (greeting t.host ∷ [])
              (wrapping-Does peer _ (perform-Does peer (greeting t.host)))
              (bind-Does peer [] (check_context-Does peer) (
                bind-Does peer (hello (bytes "localhost") ∷ [])
                  (wrapping-Does peer _ (perform-Does peer (hello (bytes "localhost"))))
                  (bind-Does peer _ upgrade-Does (
                    bind-Does peer [] (check_context-Does peer) (
                      bind-Does peer _ (wrapping-Does peer _ login-Does)
                        (bind-Does peer [] (check_context-Does peer) (transfer-Does msg)))))))))

    pub deliver-Does :
        (subject body : Text)
        → Does peer
            (delivery_plan mail proxies t subject body)
            (deliver_message mail proxies peer t subject body)
    unfolding deliver_message delivery_plan
    deliver-Does subject body =
        bind-Does peer _ (wrapping-Does peer _ (dial-Does (join_host_port t.host (itoa t.port))))
          (and_close-Does peer (converse-Does (build_email mail t subject body)))
