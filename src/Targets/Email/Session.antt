-- ===== src/Targets/Email/Session.antt =====
-- targets/email/email.go: sendSMTP and what it calls.
pub mod Delivery
pub mod Credentials
pub mod Runs
pub mod Plan
use notifykit.Base.{
  ℤ, Bool, true, false, not, ◌&&◌, ◌||◌, Option, none, some, List, [], ◌∷◌, ◌++◌, is_empty,
  if◌then◌else◌,
}
use notifykit.Text.{Text, bytes}
use notifykit.Text.Strings.{itoa, join_host_port}
use notifykit.Notify.Error.{Error, message, permanent_error, operation_error}
use notifykit.Notify.Result.{Result, ok, err, error_of}
use notifykit.Targets.Email.Config.{Email, TlsMode, required, implicit, plaintext, apply_defaults}
use notifykit.Targets.Email.Mailbox.{Mail, Mailbox, parse_mailbox, envelope_recipients}
use notifykit.Targets.Email.Message.{build_email}
use notifykit.Targets.Email.Proxy.{Proxies, ProxyUrl, resolve_proxy, dial_proxy}
use notifykit.Targets.Email.Wire.{
  Command, dial, set_deadline, tls_handshake, greeting, hello, start_tls, auth, mail_from, rcpt_to,
  data_start, data_write, data_close, and_close, or_close, History, Peer, Session, ◌>>=◌, ◌>>◌,
  pure, fail, lift, wrapping, perform, check_context, attempt,
}

abbrev pub uses_start_tls : TlsMode → Bool
uses_start_tls plaintext = false
uses_start_tls implicit = false
uses_start_tls mode = true

abbrev pub uses_implicit_tls : TlsMode → Bool
uses_implicit_tls implicit = true
uses_implicit_tls mode = false

abbrev pub no_start_tls : Error
no_start_tls = permanent_error (message (bytes "SMTP server does not support required STARTTLS") [])

-- A failed stage, by its name.
abbrev pub stage : Text → ℤ → Session (Unit {0}) → Session (Unit {0})
stage name timeout m = wrapping (operation_error name timeout) m

module _ (mail : Mail) (proxies : Proxies) (peer : Peer) where
  module _ {Data : Type 0} (t : Email Data) where
    unfoldable pub dial_smtp_connection : Text → Session (Unit {0})
    dial_smtp_connection address =
        if t.proxy_from_environment
        then (do
          found ← lift (resolve_proxy proxies address t.tls_mode)
          elim found [
            | none ↦ perform peer (dial address t.dial_timeout)
            | some proxy ↦ dial_proxy proxies peer proxy address t.dial_timeout
          ])
        else perform peer (dial address t.dial_timeout)

    unfoldable pub smtp_auth : Session (Unit {0})
    smtp_auth =
        if is_empty t.user && is_empty t.pass
        then pure tt
        else perform peer (auth t.user t.pass t.host)

    -- The loop over the recipients.
    unfoldable pub send_recipients : List Text → Session (Unit {0})
    send_recipients [] = pure tt
    send_recipients (r ∷ rs) = do
      stage (bytes "RCPT TO") t.timeout
          (do mailbox ← lift (parse_mailbox mail r); perform peer (rcpt_to mailbox.address))
      send_recipients rs

    -- A failed write closes the writer.
    unfoldable pub write_message : Text → Session (Unit {0})
    write_message msg = or_close data_close (perform peer (data_write msg))

    unfoldable pub smtp_send : Text → Session (Unit {0})
    smtp_send msg = do
      stage (bytes "MAIL FROM") t.timeout
          (do sender ← lift (parse_mailbox mail t.sender); perform peer (mail_from sender.address))
      send_recipients (envelope_recipients t.recipients t.cc_recipients t.bcc_recipients)
      stage (bytes "message data") t.timeout (perform peer data_start)
      stage (bytes "message transfer") t.timeout (write_message msg)
      stage (bytes "message acceptance") t.timeout (perform peer data_close)

    unfoldable pub secure_connection : Session (Unit {0})
    secure_connection =
        if uses_implicit_tls t.tls_mode
        then stage (bytes "TLS handshake") t.timeout
            (perform peer (tls_handshake t.host t.skip_tls_verify))
        else pure tt

    unfoldable pub upgrade_connection : Session (Unit {0})
    upgrade_connection h =
        if not (uses_start_tls t.tls_mode)
        then (ok tt, h)
        else if not (peer.has_start_tls h)
        then (err no_start_tls, h)
        else stage (bytes "STARTTLS handshake") t.timeout
            (perform peer (start_tls t.host t.skip_tls_verify)) h

    -- From the open connection to its closing.
    unfoldable pub converse : Text → Session (Unit {0})
    converse msg = do
      stage (bytes "connection deadline") t.timeout (perform peer set_deadline)
      secure_connection
      stage (bytes "server greeting") t.timeout (perform peer (greeting t.host))
      check_context peer
      stage (bytes "EHLO/HELO") t.timeout (perform peer (hello (bytes "localhost")))
      upgrade_connection
      check_context peer
      stage (bytes "authentication") t.timeout smtp_auth
      check_context peer
      smtp_send msg

    unfoldable pub deliver_message : Text → Text → Session (Unit {0})
    deliver_message subject body = do
      stage (bytes "connection") t.timeout
          (dial_smtp_connection (join_host_port t.host (itoa t.port)))
      and_close (converse (build_email mail t subject body))

  -- The deferred test: an error gives way to that of the context.
  abbrev pub or_context : Result (Unit {0}) × History → Option Error × History
  or_context (ok u, h) = (none, h)
  or_context (err e, h) = elim (peer.ctx_err h) [ none ↦ (some e, h) | some c ↦ (some c, h) ]

  unfoldable pub send_smtp : {Data : Type 0} → Email Data → Text → Text → Option Error × History
  send_smtp t subject body = or_context (deliver_message (apply_defaults t) subject body [])
