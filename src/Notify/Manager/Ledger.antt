-- ===== src/Notify/Manager/Ledger.antt =====
-- Where the accepted notifications of notify/manager.go are: each in the queue, with a worker, or
-- completed, once.
use notifykit.Base.{
  ℕ, ◌+◌, ◌≤◌, ◌≡◌, ◌≢◌, refl, none, some, List, [], ◌∷◌, ◌++◌, arith, ap, sym, ◌∙◌, ◌==◌,
  if◌then◌else◌,
}
use notifykit.Notify.Store.{count, ids, get, count-append, count-put, count-delete, get-found}
use notifykit.Notify.Manager.{
  Manager, Act, Completion, runs, admit, stop, begin_dispatch, discard, send_slot, close_done,
}
use notifykit.Notify.Manager
use notifykit.Notify.Manager.Steps.{System, Step, init, completed_ids}

pub count-insert :
    (a x : ℕ) {l : List ℕ} (xs ys : List ℕ)
    → l ≡ xs ++ (x ∷ ys)
    → count a l ≡ count a (xs ++ ys) + (if x == a then 1 else 0)
unfolding count
count-insert a x {l} xs ys h =
    ap (count a) h ∙ ground (arith, count-append a xs (x ∷ ys), count-append a xs ys)

module _ {Notification : Type 0} where
  ids-++ : (xs ys : List (ℕ × Notification)) → ids (xs ++ ys) ≡ ids xs ++ ids ys
  ids-++ [] ys = refl
  ids-++ ((j, n) ∷ xs) ys = ap (◌∷◌ j) (ids-++ xs ys)

  count-ids-insert :
      (a x : ℕ) (n : Notification) {l : List (ℕ × Notification)} (xs ys : List (ℕ × Notification))
      → l ≡ xs ++ ((x, n) ∷ ys)
      → count a (ids l) ≡ count a (ids (xs ++ ys)) + (if x == a then 1 else 0)
  count-ids-insert a x n xs ys h =
      count-insert a x (ids xs) (ids ys) (ap ids h ∙ ids-++ xs ((x, n) ∷ ys))
      ∙ ap (λ l. count a l + (if x == a then 1 else 0)) (sym (ids-++ xs ys))

  -- The place of the queue ID `a`.
  pub record LedgerAt (a : ℕ) (s : System Notification) : Type 0 where
    pub stored : count a (ids s.manager.store) ≡ count a s.manager.mailbox + count a s.fetched
    pub tracked :
        count a s.accepted
        ≡ count a s.manager.mailbox
          + count a s.fetched
          + count a (ids s.delivering)
          + count a (completed_ids s.completed)
    pub once : count a s.accepted + count a (ids s.admitting) ≤ 1

  pub init-LedgerAt : (a : ℕ) → LedgerAt a init
  unfolding count
  init-LedgerAt a = ground arith

  -- A worker's queue ID is in the store.
  pub fetched-found :
      (s : System Notification) (xs ys : List ℕ) (id : ℕ)
      → LedgerAt id s
      → s.fetched ≡ xs ++ (id ∷ ys)
      → get id s.manager.store ≢ none
  fetched-found s xs ys id l h e =
      let (n, found) = get-found id s.manager.store (ground (arith, count-insert id id xs ys h)) in
      cc

  module _ (capacity workers : ℕ) where
    pub Step-LedgerAt :
        {s t : System Notification} (a : ℕ)
        → Step capacity workers s t
        → ((b : ℕ) → LedgerAt b s)
        → LedgerAt a t
    unfolding Manager.admit Manager.stop Manager.start Manager.begin_dispatch Manager.discard
        send_slot close_done count
    Step-LedgerAt a (Step.reserve id n m f e) l = ground (arith, l a, l id)
    Step-LedgerAt {s} a (Step.admit xs ys id n err m e h x) l = ground (
      arith,
      l a,
      l id,
      count-ids-insert a id n xs ys h,
      count-ids-insert id id n xs ys h,
      count-append a s.manager.mailbox (id ∷ []),
      count-put a id n s.manager.store,
    )
    Step-LedgerAt a (Step.start m h) l = ground (arith, l a)
    Step-LedgerAt a (Step.cancel h) l = ground (arith, l a)
    Step-LedgerAt a (Step.stop drain m sp h) l = ground (arith, l a)
    Step-LedgerAt a (Step.receive k id rest i h) l = ground (arith, l a, ap (count a) h)
    Step-LedgerAt {s} a (Step.begin xs ys id m none h b) l =
        ground (arith, fetched-found s xs ys id (l id) h)
    Step-LedgerAt {s} a (Step.begin xs ys id m (some n) h b) l = ground (
      arith,
      l a,
      l id,
      count-insert a id xs ys h,
      count-insert id id xs ys h,
      count-delete a id s.manager.store,
    )
    Step-LedgerAt a (Step.complete xs ys id n e h) l =
        ground (arith, l a, count-ids-insert a id n xs ys h)
    Step-LedgerAt a (Step.exit k i h) l = ground (arith, l a)
    Step-LedgerAt a (Step.pass k m sp w i f d h) l = ground (arith, l a)
    Step-LedgerAt {s} a (Step.discard k id rest m cs d h x) l =
        let (n, found) = get-found id s.manager.store (ground (arith, l id, ap (count id) h)) in
        ground (
          arith,
          l a,
          l id,
          found,
          ap (count a) h,
          ap (count id) h,
          count-delete a id s.manager.store,
        )
    Step-LedgerAt a (Step.finish k m d e cl h) l = ground (arith, l a)
