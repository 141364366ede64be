-- ===== src/Targets/Email/Proxy.antt =====
-- targets/email/proxy.go: finding an HTTP proxy, and the tunnel through it.
use notifykit.Base.{
  ℤ, pos, Bool, true, false, not, ◌||◌, Option, none, some, List, [], ◌∷◌, ◌++◌, leb_ℤ, ltb_ℤ,
  is_empty, if◌then◌else◌,
}
use notifykit.Text.{Text, bytes}
use notifykit.Text.Strings.{equal_fold, join_host_port}
use notifykit.Notify.Error.{message, wrapped, proxy_error}
use notifykit.Notify.Result.{Result, ok, err}
use notifykit.Targets.Email.Config.{TlsMode, implicit}
use notifykit.Targets.Email.Wire.{
  dial, set_deadline, clear_deadline, tls_handshake, connect_request, connect_response, close_conn,
  or_close, Peer, Session, ◌>>=◌, ◌>>◌, pure, fail, lift, wrapping, perform, attempt,
}

-- What the code reads of a url.URL: Scheme, Host, Hostname(), Port(), and User with its password.
pub record ProxyUrl : Type 0 where
  pub scheme : Text
  pub host : Text
  pub hostname : Text
  pub port : Text
  pub user : Option (Text × Text)

-- http.ProxyFromEnvironment for a scheme and a host, and base64.StdEncoding.EncodeToString.
pub record Proxies : Type 0 where
  pub from_environment : Text → Text → Result (Option ProxyUrl)
  pub base64 : Text → Text

abbrev pub swapped : TlsMode → Bool
swapped implicit = true
swapped mode = false

abbrev is_http : Text → Bool
is_http scheme = is_empty scheme || equal_fold scheme (bytes "http")

unfoldable pub proxy_dial_address : ProxyUrl → Result Text
proxy_dial_address proxy =
    if is_empty proxy.hostname
    then err (message (bytes "proxy host is empty") [])
    else if not (is_empty proxy.port)
    then ok proxy.host
    else if equal_fold proxy.scheme (bytes "https")
    then ok (join_host_port proxy.hostname (bytes "443"))
    else if is_http proxy.scheme
    then ok (join_host_port proxy.hostname (bytes "80"))
    else err (message (bytes "unsupported proxy scheme %q") (proxy.scheme ∷ []))

module _ (proxies : Proxies) where
  -- The loop over the schemes.
  unfoldable pub first_proxy : Text → List Text → Result (Option ProxyUrl)
  first_proxy address [] = ok none
  first_proxy address (scheme ∷ schemes) =
      let rest = first_proxy address schemes in
      elim (proxies.from_environment scheme address) [
        | err e ↦ err e
        | ok found ↦ elim found [ none ↦ rest | some proxy ↦ ok (some proxy) ]
      ]

  unfoldable pub resolve_proxy : Text → TlsMode → Result (Option ProxyUrl)
  resolve_proxy address mode = first_proxy address (
      if swapped mode then bytes "https" ∷ bytes "http" ∷ [] else bytes "http" ∷ bytes "https" ∷ [])

  abbrev pub authorization : Option (Text × Text) → Text
  authorization none = []
  authorization (some (username, password)) =
      bytes "Proxy-Authorization: Basic "
      ++ (proxies.base64 (username ++ (bytes ":" ++ password)) ++ bytes "\r\n")

  unfoldable pub connect_text : ProxyUrl → Text → Text
  connect_text proxy target =
      bytes "CONNECT "
      ++ (target
          ++ (bytes " HTTP/1.1\r\nHost: "
              ++ (target
                  ++ (bytes "\r\nProxy-Connection: Keep-Alive\r\n"
                      ++ (authorization proxy.user ++ bytes "\r\n")))))

  module _ (peer : Peer) where
    unfoldable pub proxy_handshake : ProxyUrl → Session (Unit {0})
    proxy_handshake proxy =
        if equal_fold proxy.scheme (bytes "https")
        then wrapping (wrapped (bytes "TLS handshake with proxy %s: %w") (proxy.host ∷ []))
            (perform peer (tls_handshake proxy.hostname false))
        else if is_http proxy.scheme
        then pure tt
        else fail (message (bytes "unsupported proxy scheme %q") (proxy.scheme ∷ []))

    -- The test of the status of the response.
    unfoldable pub accept_response : Session (Unit {0})
    accept_response h =
        let (code, status) = peer.response h in
        if ltb_ℤ code (pos 200) || leb_ℤ (pos 300) code
        then (err (proxy_error code status), h)
        else (ok tt, h)

    -- From the connection to the proxy on.
    unfoldable pub open_tunnel : ProxyUrl → Text → Session (Unit {0})
    open_tunnel proxy target = do
      proxy_handshake proxy
      attempt peer set_deadline
      wrapping (wrapped (bytes "write proxy CONNECT request: %w") [])
          (perform peer (connect_request (connect_text proxy target)))
      wrapping (wrapped (bytes "read proxy CONNECT response: %w") [])
          (perform peer connect_response)
      accept_response
      attempt peer clear_deadline

    -- The context always has a deadline here, that of sendSMTP.
    unfoldable pub dial_proxy : ProxyUrl → Text → ℤ → Session (Unit {0})
    dial_proxy proxy target timeout =
        if is_empty proxy.host then fail (message (bytes "proxy host is empty") []) else (do
          address ← lift (proxy_dial_address proxy)
          wrapping (wrapped (bytes "connect proxy %s: %w") (proxy.host ∷ []))
              (perform peer (dial address timeout))
          or_close close_conn (open_tunnel proxy target))
