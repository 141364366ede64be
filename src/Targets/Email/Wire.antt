-- ===== src/Targets/Email/Wire.antt =====
-- targets/email: the calls that a delivery makes on connections and on the SMTP client, in order.
-- `Peer` stands for the network, the servers and the context: its answers may depend on all the calls
-- made so far. A call is recorded whether or not it fails.
pub mod Runs
use notifykit.Base.{ℤ, Bool, true, false, Option, none, some, List, [], ◌∷◌, ◌++◌}
use notifykit.Text.{Text}
use notifykit.Notify.Error.{Error}
use notifykit.Notify.Result.{Result, ok, err, check}

pub data Command : Type 0 where
  -- Dialer.DialContext over tcp: address, timeout
  dial : Text → ℤ → Command
  -- Conn.SetDeadline with the deadline of the context, and with the zero time
  set_deadline : Command
  clear_deadline : Command
  -- tls.Client and HandshakeContext: server name, whether the verification is skipped
  tls_handshake : Text → Bool → Command
  -- Conn.Write of the CONNECT request, and http.ReadResponse
  connect_request : Text → Command
  connect_response : Command
  -- smtp.NewClient, which reads the greeting: the server's name
  greeting : Text → Command
  -- methods of smtp.Client; auth has the PLAIN user, password and host
  hello : Text → Command
  start_tls : Text → Bool → Command
  auth : Text → Text → Text → Command
  mail_from : Text → Command
  rcpt_to : Text → Command
  data_start : Command
  data_write : Text → Command
  data_close : Command
  -- Conn.Close
  close_conn : Command

abbrev pub History : Type 0
History = List Command

pub record Peer : Type 0 where
  -- The error of a call.
  pub reply : History → Command → Option Error
  -- The status code and the status of the response that http.ReadResponse gives.
  pub response : History → ℤ × Text
  -- client.Extension("STARTTLS")
  pub has_start_tls : History → Bool
  -- ctx.Err() of the context with the timeout
  pub ctx_err : History → Option Error

-- A computation that makes calls.
abbrev pub Session : Type 0 → Type 0
Session A = History → Result A × History

infixl 5 ◌>>=◌ ◌>>◌
abbrev pub ◌>>=◌ : {A B : Type 0} → Session A → (A → Session B) → Session B
◌>>=◌ m f h = let (r, h') = m h in elim r [ ok a ↦ f a h' | err e ↦ (err e, h') ]

abbrev pub ◌>>◌ : {B : Type 0} → Session (Unit {0}) → Session B → Session B
m >> k = m >>= λ _. k

abbrev pub pure : {A : Type 0} → A → Session A
pure a h = (ok a, h)

abbrev pub fail : {A : Type 0} → Error → Session A
fail e h = (err e, h)

abbrev pub lift : {A : Type 0} → Result A → Session A
lift r h = (r, h)

-- `if err := ...; err != nil { return ..., f(err) }`
abbrev pub wrapping : (Error → Error) → Session (Unit {0}) → Session (Unit {0})
wrapping f m h = let (r, h') = m h in elim r [ ok u ↦ (ok tt, h') | err e ↦ (err (f e), h') ]

-- The deferred Close of the connection.
abbrev pub and_close : Session (Unit {0}) → Session (Unit {0})
and_close m h = let (r, h') = m h in (r, h' ++ (close_conn ∷ []))

-- `_ = conn.Close()`, or `_ = writer.Close()`, before an error is returned.
abbrev pub or_close : Command → Session (Unit {0}) → Session (Unit {0})
or_close c m h =
    let (r, h') = m h in elim r [ ok u ↦ (ok tt, h') | err e ↦ (err e, h' ++ (c ∷ [])) ]

module _ (peer : Peer) where
  unfoldable pub perform : Command → Session (Unit {0})
  perform c h = (check (peer.reply h c), h ++ (c ∷ []))

  -- `if err := ctx.Err(); err != nil { return err }`
  unfoldable pub check_context : Session (Unit {0})
  check_context h = (check (peer.ctx_err h), h)

  -- A call whose error is ignored.
  unfoldable pub attempt : Command → Session (Unit {0})
  attempt c h = (ok tt, h ++ (c ∷ []))
