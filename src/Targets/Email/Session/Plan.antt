-- ===== src/Targets/Email/Session/Plan.antt =====
-- targets/email: the calls that a delivery means to make, and that it makes just these.
use notifykit.Base.{
  ℤ, Bool, false, not, ◌&&◌, Option, none, some, List, [], ◌∷◌, ◌++◌, map, is_empty, if◌then◌else◌,
}
use notifykit.Text.{Text, bytes}
use notifykit.Text.Strings.{itoa, join_host_port, equal_fold}
use notifykit.Notify.Result.{Result, ok, err}
use notifykit.Targets.Email.Config.{Email}
use notifykit.Targets.Email.Mailbox.{Mail, Mailbox, parse_mailbox, envelope_recipients}
use notifykit.Targets.Email.Message.{build_email}
use notifykit.Targets.Email.Proxy.{
  Proxies, ProxyUrl, resolve_proxy, proxy_dial_address, connect_text,
}
use notifykit.Targets.Email.Wire.{
  Command, dial, set_deadline, clear_deadline, connect_request, connect_response, tls_handshake,
  greeting, hello, start_tls, auth, mail_from, rcpt_to, data_start, data_write, data_close,
  close_conn, History,
}
use notifykit.Targets.Email.Session.{uses_start_tls, uses_implicit_tls}

-- A call that is made only if a condition holds.
abbrev pub only_if : Bool → Command → History
only_if b c = if b then c ∷ [] else []

abbrev pub address_or_empty : Result Mailbox → Text
address_or_empty (ok m) = m.address
address_or_empty (err e) = []

abbrev pub text_or_empty : Result Text → Text
text_or_empty (ok t) = t
text_or_empty (err e) = []

module _ (mail : Mail) (proxies : Proxies) where
  abbrev pub tunnel_plan : ProxyUrl → Text → History
  tunnel_plan proxy address =
      only_if (equal_fold proxy.scheme (bytes "https")) (tls_handshake proxy.hostname false)
      ++ (set_deadline
          ∷ connect_request (connect_text proxies proxy address)
          ∷ connect_response
          ∷ clear_deadline
          ∷ [])

  abbrev pub proxy_plan : ProxyUrl → Text → ℤ → History
  proxy_plan proxy address timeout =
      dial (text_or_empty (proxy_dial_address proxy)) timeout ∷ tunnel_plan proxy address

  abbrev pub route_plan : Result (Option ProxyUrl) → Text → ℤ → History
  route_plan (err e) address timeout = []
  route_plan (ok none) address timeout = dial address timeout ∷ []
  route_plan (ok (some proxy)) address timeout = proxy_plan proxy address timeout

  module _ {Data : Type 0} (t : Email Data) where
    -- The proxy that the target uses, if any.
    abbrev pub route : Text → Result (Option ProxyUrl)
    route address =
        if t.proxy_from_environment then resolve_proxy proxies address t.tls_mode else ok none

    abbrev pub connection_plan : History
    connection_plan =
        let address = join_host_port t.host (itoa t.port) in
        route_plan (route address) address t.dial_timeout

    abbrev pub recipient_calls : List Text → History
    recipient_calls rs = map (λ r. rcpt_to (address_or_empty (parse_mailbox mail r))) rs

    abbrev pub transfer_plan : Text → History
    transfer_plan msg =
        mail_from (address_or_empty (parse_mailbox mail t.sender))
        ∷ (recipient_calls (envelope_recipients t.recipients t.cc_recipients t.bcc_recipients)
            ++ (data_start ∷ data_write msg ∷ data_close ∷ []))

    abbrev pub login_plan : History
    login_plan = only_if (not (is_empty t.user && is_empty t.pass)) (auth t.user t.pass t.host)

    abbrev pub session_plan : Text → History
    session_plan msg =
        set_deadline
        ∷ (only_if (uses_implicit_tls t.tls_mode) (tls_handshake t.host t.skip_tls_verify)
            ++ (greeting t.host
                ∷ hello (bytes "localhost")
                ∷ (only_if (uses_start_tls t.tls_mode) (start_tls t.host t.skip_tls_verify)
                    ++ (login_plan ++ transfer_plan msg))))

    -- Everything from the first connection to its closing.
    unfoldable pub delivery_plan : Text → Text → History
    delivery_plan subject body =
        connection_plan ++ (session_plan (build_email mail t subject body) ++ (close_conn ∷ []))
