-- ===== src/Targets/Email/Config/Defaults.antt =====
-- targets/email/email.go, applyDefaults: sendSMTP applies the defaults again.
use notifykit.Base.{◌≡◌, refl, ap, ◌∙◌, ℤ, pos, false, leb_ℤ, Bool-cases, arith, ◌*ℤ◌, inl, inr}
use notifykit.Targets.Email.Config.{
  Email, TlsMode, BodyFormat, or_required, or_html, is_implicit, or_port, or_positive, second,
  apply_defaults,
}

or_required_idem : (mode : TlsMode) → or_required (or_required mode) ≡ or_required mode
or_required_idem TlsMode.unset = refl
or_required_idem TlsMode.required = refl
or_required_idem TlsMode.implicit = refl
or_required_idem TlsMode.plaintext = refl
or_required_idem (TlsMode.unknown s) = refl

or_html_idem : (format : BodyFormat) → or_html (or_html format) ≡ or_html format
or_html_idem BodyFormat.unset = refl
or_html_idem BodyFormat.html = refl
or_html_idem BodyFormat.plain = refl
or_html_idem (BodyFormat.unknown s) = refl

or_port_idem : (mode : TlsMode) (port : ℤ) → or_port mode (or_port mode port) ≡ or_port mode port
or_port_idem mode port = elim (Bool-cases (is_implicit mode)) [
  | inl h ↦ ground (arith, h)
  | inr h ↦ ground (arith, h)
]

or_positive_idem :
    (default value : ℤ)
    → leb_ℤ default (pos 0) ≡ false
    → or_positive default (or_positive default value) ≡ or_positive default value
or_positive_idem default value h = ground arith

-- Applying the defaults again changes nothing.
pub apply_defaults_idem :
    {Data : Type 0} (t : Email Data) → apply_defaults (apply_defaults t) ≡ apply_defaults t
unfolding apply_defaults
apply_defaults_idem t =
    let mode = or_required t.tls_mode in
    let m = or_required_idem t.tls_mode in
    let port = ap (λ x. or_port x (or_port mode t.port)) m ∙ or_port_idem mode t.port in
    let format = or_html_idem t.body_format in
    let timeout = or_positive_idem (pos 30 *ℤ second) t.timeout refl in
    let dial_timeout = or_positive_idem (pos 10 *ℤ second) t.dial_timeout refl in
    λ i. record t {
      tls_mode = m i;
      body_format = format i;
      port = port i;
      timeout = timeout i;
      dial_timeout = dial_timeout i;
    }
