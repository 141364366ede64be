-- ===== src/Targets/Email/Wire/Runs.antt =====
-- targets/email: what it means that a computation makes the calls of a plan.
use mathlib.Core.List.{append-nil, append_assoc}
use notifykit.Base.{
  ◌≡◌, refl, sym, ap, subst, ◌∙◌, All-append, ◌⊎◌, inl, inr, Bool, true, false, none, [], ◌∷◌, ◌++◌,
  All, Option-cases,
}
use notifykit.Notify.Error.{Error}
use notifykit.Notify.Result.{Result, ok, err}
use notifykit.Targets.Email.Wire.{
  Command, set_deadline, clear_deadline, data_close, close_conn, History, Peer, Session, ◌>>◌, pure,
  fail, wrapping, perform, check_context, attempt, and_close, or_close,
}

abbrev pub Outcome : Type 0
Outcome = Result (Unit {0}) × History

abbrev pub IsClosing : Command → Type 0
IsClosing c = (c ≡ data_close) ⊎ (c ≡ close_conn)

-- The computation failed, and after the calls `h` there were only closing ones.
abbrev pub Stops : History → Outcome → Type 0
Stops h (r, h') =
    ((e : Error) × (r ≡ err e))
    × ((closing : History) × (h' ≡ h ++ closing) × All IsClosing closing)

-- The calls whose errors are ignored, if not everywhere.
abbrev pub is_unchecked : Command → Bool
is_unchecked set_deadline = true
is_unchecked clear_deadline = true
is_unchecked close_conn = true
is_unchecked c = false

module _ (peer : Peer) where
  abbrev pub Passes : History → Command → Type 0
  Passes h c = is_unchecked c ≡ false → peer.reply h c ≡ none

  -- After the calls `h`, the calls of a plan in its order. Each has succeeded before the next is made,
  -- and the computation succeeds with the last: else it fails, at any point, and only closes things.
  abbrev pub Conducts : History → History → Outcome → Type 0
  Conducts h [] out = (out ≡ (ok tt, h)) ⊎ Stops h out
  Conducts h (c ∷ plan) out =
      Stops h out ⊎ (Stops (h ++ (c ∷ [])) out ⊎ (Passes h c × Conducts (h ++ (c ∷ [])) plan out))

  pub stopped : (plan h : History) (out : Outcome) → Stops h out → Conducts h plan out
  stopped [] h out s = inr s
  stopped (c ∷ plan) h out s = inl s

  pub fails : (plan h : History) (e : Error) → Conducts h plan (err e, h)
  fails plan h e = stopped plan h (err e, h) ((e, refl), ([], sym (append-nil h), tt))

  pub passes : (h : History) → Conducts h [] (ok tt, h)
  passes h = inl refl

  -- A session in a row with another.
  pub bind-Stops :
      (h : History) (r : Result (Unit {0})) (h' : History) (k : Session (Unit {0}))
      → Stops h (r, h')
      → Stops h (((λ _. (r, h')) >> k) h)
  bind-Stops h r h' k ((e, failed), closed) = rw failed ((e, refl), closed)

  bind-Conducts :
      (p q h : History) (out : Outcome) (k : Session (Unit {0}))
      → Conducts h p out
      → ((h₁ : History) → Conducts h₁ q (k h₁))
      → Conducts h (p ++ q) (((λ _. out) >> k) h)
  bind-Conducts [] q h (r, h') k (inl e) c =
      subst (λ o. Conducts h q (((λ _. o) >> k) h)) (sym e) (c h)
  bind-Conducts [] q h (r, h') k (inr s) c = stopped q h _ (bind-Stops h r h' k s)
  bind-Conducts (x ∷ p) q h (r, h') k (inl s) c = inl (bind-Stops h r h' k s)
  bind-Conducts (x ∷ p) q h (r, h') k (inr (inl s)) c =
      inr (inl (bind-Stops (h ++ (x ∷ [])) r h' k s))
  bind-Conducts (x ∷ p) q h (r, h') k (inr (inr (passed, s))) c =
      inr (inr (passed, bind-Conducts p q (h ++ (x ∷ [])) (r, h') k s c))

  -- `m` conducts `plan` after whatever calls.
  pub record Does (plan : History) (m : Session (Unit {0})) : Type 0 where
    pub runs : (h : History) → Conducts h plan (m h)

  pub bind-Does :
      (p : History) {q : History} {m k : Session (Unit {0})}
      → Does p m
      → Does q k
      → Does (p ++ q) (m >> k)
  bind-Does p {q} {m} {k} c d = record { runs = λ h. bind-Conducts p q h (m h) k (c.runs h) d.runs }

  wrapping-Stops :
      (f : Error → Error) (h : History) (r : Result (Unit {0})) (h' h₀ : History)
      → Stops h (r, h')
      → Stops h (wrapping f (λ _. (r, h')) h₀)
  wrapping-Stops f h r h' h₀ ((e, failed), closed) = rw failed ((f e, refl), closed)

  wrapping-Conducts :
      (f : Error → Error) (p h h₀ : History) (out : Outcome)
      → Conducts h p out
      → Conducts h p (wrapping f (λ _. out) h₀)
  wrapping-Conducts f [] h h₀ (r, h') (inl e) = inl (ap (λ o. wrapping f (λ _. o) h₀) e)
  wrapping-Conducts f [] h h₀ (r, h') (inr s) = inr (wrapping-Stops f h r h' h₀ s)
  wrapping-Conducts f (x ∷ p) h h₀ (r, h') (inl s) = inl (wrapping-Stops f h r h' h₀ s)
  wrapping-Conducts f (x ∷ p) h h₀ (r, h') (inr (inl s)) = inr (inl (wrapping-Stops f _ r h' h₀ s))
  wrapping-Conducts f (x ∷ p) h h₀ (r, h') (inr (inr (passed, s))) =
      inr (inr (passed, wrapping-Conducts f p (h ++ (x ∷ [])) h₀ (r, h') s))

  pub wrapping-Does :
      (f : Error → Error) {p : History} {m : Session (Unit {0})} → Does p m → Does p (wrapping f m)
  wrapping-Does f {p} {m} c = record { runs = λ h. wrapping-Conducts f p h h (m h) (c.runs h) }

  pub perform-Does : (c : Command) → Does (c ∷ []) (perform peer c)
  unfolding perform
  perform-Does c = record {
    runs = λ h. elim (Option-cases (peer.reply h c)) [
      | inl none_ ↦ rw none_ (inr (inr ((λ _. refl), inl refl)))
      | inr (e, some_) ↦ rw some_ (inr (inl ((e, refl), ([], sym (append-nil _), tt))))
    ];
  }

  pub check_context-Does : Does [] (check_context peer)
  unfolding check_context
  check_context-Does = record {
    runs = λ h. elim (Option-cases (peer.ctx_err h)) [
      | inl none_ ↦ rw none_ (inl refl)
      | inr (e, some_) ↦ rw some_ (fails [] h e)
    ];
  }

  pub attempt-Does : (c : Command) → is_unchecked c ≡ true → Does (c ∷ []) (attempt peer c)
  unfolding attempt
  attempt-Does c d = record { runs = λ h. inr (inr ((λ n. cc), inl refl)) }

  pub fail-Does : (plan : History) (e : Error) → Does plan (fail e)
  fail-Does plan e = record { runs = λ h. fails plan h e }

  pub pure-Does : Does [] (pure tt)
  pure-Does = record { runs = passes }

  closing-Stops :
      (h : History) (r : Result (Unit {0})) (h' : History) (c : Command)
      → IsClosing c
      → Stops h (r, h')
      → Stops h (r, h' ++ (c ∷ []))
  closing-Stops h r h' c k (failed, (closing, e, all)) = (
    failed,
    (
      closing ++ (c ∷ []),
      ap (λ x. x ++ (c ∷ [])) e ∙ append_assoc h closing _,
      All-append IsClosing closing _ all (k, tt),
    ),
  )

  and_close-Conducts :
      (p h h₀ : History) (out : Outcome)
      → Conducts h p out
      → Conducts h (p ++ (close_conn ∷ [])) (and_close (λ _. out) h₀)
  and_close-Conducts [] h h₀ (r, h') (inl e) =
      inr (inr ((λ n. cc), inl (ap (λ o. and_close (λ _. o) h₀) e)))
  and_close-Conducts [] h h₀ (r, h') (inr s) = inl (closing-Stops h r h' close_conn (inr refl) s)
  and_close-Conducts (x ∷ p) h h₀ (r, h') (inl s) =
      inl (closing-Stops h r h' close_conn (inr refl) s)
  and_close-Conducts (x ∷ p) h h₀ (r, h') (inr (inl s)) =
      inr (inl (closing-Stops _ r h' close_conn (inr refl) s))
  and_close-Conducts (x ∷ p) h h₀ (r, h') (inr (inr (passed, s))) =
      inr (inr (passed, and_close-Conducts p _ h₀ (r, h') s))

  close_failed-Stops :
      (c : Command) (k : IsClosing c) (h h₀ : History) (r : Result (Unit {0})) (h' : History)
      → Stops h (r, h')
      → Stops h (or_close c (λ _. (r, h')) h₀)
  close_failed-Stops c k h h₀ r h' ((e, failed), closed) =
      rw failed (closing-Stops h (err e) h' c k ((e, refl), closed))

  or_close-Conducts :
      (c : Command) (k : IsClosing c) (p h h₀ : History) (out : Outcome)
      → Conducts h p out
      → Conducts h p (or_close c (λ _. out) h₀)
  or_close-Conducts c k [] h h₀ (r, h') (inl e) = inl (ap (λ o. or_close c (λ _. o) h₀) e)
  or_close-Conducts c k [] h h₀ (r, h') (inr s) = inr (close_failed-Stops c k h h₀ r h' s)
  or_close-Conducts c k (x ∷ p) h h₀ (r, h') (inl s) = inl (close_failed-Stops c k h h₀ r h' s)
  or_close-Conducts c k (x ∷ p) h h₀ (r, h') (inr (inl s)) =
      inr (inl (close_failed-Stops c k _ h₀ r h' s))
  or_close-Conducts c k (x ∷ p) h h₀ (r, h') (inr (inr (passed, s))) =
      inr (inr (passed, or_close-Conducts c k p _ h₀ (r, h') s))

  pub and_close-Does :
      {p : History} {m : Session (Unit {0})}
      → Does p m
      → Does (p ++ (close_conn ∷ [])) (and_close m)
  and_close-Does {p} {m} c = record { runs = λ h. and_close-Conducts p h h (m h) (c.runs h) }

  pub or_close-Does :
      (c : Command) {p : History} {m : Session (Unit {0})}
      → IsClosing c
      → Does p m
      → Does p (or_close c m)
  or_close-Does c {p} {m} k d = record { runs = λ h. or_close-Conducts c k p h h (m h) (d.runs h) }
