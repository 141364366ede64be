-- ===== src/Targets/Email/Classify/Marks.antt =====
-- targets/email/email.go, classifySMTPError: which failures are worth another attempt.
use notifykit.Base.{
  ◌≡◌, refl, ◌↔◌, ◌⊎◌, subst, sym, inl, inr, ℤ, pos, ◌≤ℤ◌, ◌<ℤ◌, Bool, true, false, Option, none,
  some, arith, Option-cases, Bool-cases,
}
use notifykit.Notify.Error.{Error, find_as}
use notifykit.Notify.Error.Marks.{is_some, is_permanent, is_transport, permanent, transport}
use notifykit.Notify.Error.MarkLaws.{permanent-transport}
use notifykit.Targets.Email.Classify.{
  as_proxy_error, as_reply, as_certificate, is_connection_loss, is_temporary_status,
  is_temporary_reply, mark_temporary, classify_local, classify_smtp_error,
}

-- The failures that may pass: the proxy's answers 408, 429 and from 500 on; else the server's 4xx
-- replies; else a lost connection, unless a certificate was rejected.
abbrev pub IsTransient : Error → Type 0
IsTransient e =
    ((code : ℤ) × (find_as as_proxy_error e ≡ some code)
      × ((code ≡ pos 408) ⊎ ((code ≡ pos 429) ⊎ (pos 500 ≤ℤ code))))
    ⊎ ((find_as as_proxy_error e ≡ none)
        × (((code : ℤ) × (find_as as_reply e ≡ some code) × (pos 400 ≤ℤ code) × (code <ℤ pos 500))
            ⊎ ((find_as as_reply e ≡ none)
                × (is_some (find_as as_certificate e) ≡ false)
                × (is_connection_loss e ≡ true))))

-- An error that has just one of the two marks: transport where `P`, and else permanent.
abbrev pub IsMarked : Type 0 → Option Error → Type 0
IsMarked P o =
    ((is_transport o ≡ true) × (is_permanent o ≡ false) × P)
    ⊎ ((is_transport o ≡ false) × (is_permanent o ≡ true) × ¬ P)

temporary_status_iff :
    (code : ℤ)
    → (is_temporary_status code ≡ true)
      ↔ ((code ≡ pos 408) ⊎ ((code ≡ pos 429) ⊎ (pos 500 ≤ℤ code)))
unfolding is_temporary_status
temporary_status_iff code = ground arith

temporary_reply_iff :
    (code : ℤ) → (is_temporary_reply code ≡ true) ↔ ((pos 400 ≤ℤ code) × (code <ℤ pos 500))
unfolding is_temporary_reply
temporary_reply_iff code = ground arith

module _ (e : Error) (unmarked : is_permanent (some e) ≡ false) where
  transport-IsMarked : (P : Type 0) → P → IsMarked P (transport (some e))
  transport-IsMarked P p =
      let m = permanent-transport e in inl (ground (arith, m), ground (arith, m), p)

  permanent-IsMarked : (P : Type 0) → ¬ P → IsMarked P (permanent (some e))
  permanent-IsMarked P p =
      let m = permanent-transport e in inr (ground (arith, m), ground (arith, m), p)

  mark_temporary-IsMarked :
      (P : Type 0) (b : Bool) → (b ≡ true) ↔ P → IsMarked P (mark_temporary b e)
  unfolding mark_temporary
  mark_temporary-IsMarked P true h = transport-IsMarked P (h.0 refl)
  mark_temporary-IsMarked P false h = permanent-IsMarked P (λ p. cc (h.1 p))

  proxy-IsTransient :
      (code : ℤ)
      → find_as as_proxy_error e ≡ some code
      → (is_temporary_status code ≡ true) ↔ IsTransient e
  proxy-IsTransient code h = (
    (λ t. inl (code, h, (temporary_status_iff code).0 t)),
    λ p. elim p [
      | inl (c, k, s) ↦
          (let same : c ≡ code = cc in
            subst (λ x. is_temporary_status x ≡ true) same ((temporary_status_iff c).1 s))
      | inr (k, s) ↦ cc
    ],
  )

  reply-IsTransient :
      (code : ℤ)
      → find_as as_proxy_error e ≡ none
      → find_as as_reply e ≡ some code
      → (is_temporary_reply code ≡ true) ↔ IsTransient e
  reply-IsTransient code n h = (
    (λ t.
        inr (
          n,
          inl (code, h, ((temporary_reply_iff code).0 t).0, ((temporary_reply_iff code).0 t).1),
        )),
    λ p. elim p [
      | inl (c, k, s) ↦ cc
      | inr (k, inl (c, r, s, t)) ↦
          (let same : c ≡ code = cc in
            subst (λ x. is_temporary_reply x ≡ true) same ((temporary_reply_iff c).1 (s, t)))
      | inr (k, inr (r, s, l)) ↦ cc
    ],
  )

  marked : {o p : Option Error} → o ≡ p → IsMarked (IsTransient e) p → IsMarked (IsTransient e) o
  marked h m = subst (IsMarked (IsTransient e)) (sym h) m

  local-IsMarked :
      find_as as_proxy_error e ≡ none
      → find_as as_reply e ≡ none
      → IsMarked (IsTransient e) (classify_local e)
  unfolding classify_local
  local-IsMarked n h = elim (Bool-cases (is_some (find_as as_certificate e))) [
    | inl c ↦ marked (rw c refl) (
        permanent-IsMarked (IsTransient e) (λ p. elim p [
          | inl (code, k, s) ↦ cc
          | inr (k, inl (code, r, s, t)) ↦ cc
          | inr (k, inr (r, s, l)) ↦ cc
        ]))
    | inr c ↦ marked (rw c refl) (
        mark_temporary-IsMarked (IsTransient e) (is_connection_loss e) (
          (λ l. inr (n, inr (h, c, l))),
          λ p. elim p [
            | inl (code, k, s) ↦ cc
            | inr (k, inl (code, r, s, t)) ↦ cc
            | inr (k, inr (r, s, l)) ↦ l
          ],
        ))
  ]

-- A failed SMTP attempt gets just one of the two marks, unless it has the permanent one already,
-- which it keeps: transport if it is transient, permanent if it is not.
pub classify_smtp_error-IsMarked :
    (e : Error)
    → ((is_permanent (some e) ≡ true) × (classify_smtp_error (some e) ≡ some e))
      ⊎ ((is_permanent (some e) ≡ false) × IsMarked (IsTransient e) (classify_smtp_error (some e)))
unfolding classify_smtp_error
classify_smtp_error-IsMarked e = elim (Bool-cases (is_permanent (some e))) [
  | inl p ↦ inl (p, rw (p, classify_smtp_error) refl)
  | inr u ↦ inr (
    u,
    elim (Option-cases (find_as as_proxy_error e)) [
      | inr (code, h) ↦
          marked e u (rw (u, classify_smtp_error, h) refl)
            (mark_temporary-IsMarked e u _ _ (proxy-IsTransient e u code h))
      | inl n ↦ elim (Option-cases (find_as as_reply e)) [
        | inr (code, h) ↦
            marked e u (rw (u, classify_smtp_error, n, h) refl)
              (mark_temporary-IsMarked e u _ _ (reply-IsTransient e u code n h))
        | inl h ↦ marked e u (rw (u, classify_smtp_error, n, h) refl) (local-IsMarked e u n h)
      ]
    ],
  )
]
