-- ===== src/Operation/Withdraw.antt =====
-- gb_operation_cancel_incoming.
use greybus.Base.{
  ℕ, ◌+◌, ◌≡◌, Bool, true, false, some, arith, if◌then◌else◌, ◌∙◌, ap, subst, inl, inr, Bool-cases,
}
use greybus.Errno.{Errno}
use greybus.Operation.State.{
  Operation, World, pure, load, modify, result_set, next_errno, message_cancel, ◌>>=◌,
}
use greybus.Operation.Work.{cancel_incoming}
use greybus.Operation.Invariant.{Inv}
use greybus.Operation.Effects.{
  Returns, bind, weaken, Now, Now-trans, modify-Now, load-Now, result_set-Now, message_cancel-Now,
}

-- The result of a cancelled operation, which is `alone` if nobody waits for an answer.
abbrev pub final : Bool → Errno → Operation → Errno
final alone e o = if alone then o.errno else (next_errno o.errno e).0

-- The operation after its cancellation, up to the wait.
abbrev pub withdrawn : Errno → Operation → Operation
withdrawn e o = record o { errno = final o.unidirectional e o; waiters = o.waiters + 1 }

module _ (p : ℕ) (o : Operation) (w : World) (v : Inv w) (at : w.heap p ≡ some o) where
  result_or_cancel :
      (alone : Bool) (e : Errno) (w1 : World)
      → Now p o w w1
      → Returns
          (λ _ w'. Now p (record o { errno = final alone e o }) w w')
          ((if alone then pure tt else (do
            recorded ← result_set p e
            if recorded then pure tt else message_cancel p true))
            w1)
  result_or_cancel true e w1 n = n
  result_or_cancel false e w1 n =
      bind _ _ (result_set p e w1) _ (result_set-Now w1 n.inv p o n.at e) λ told w2 (q, m).
        elim (Bool-cases told) [
          | inl t ↦ rw t (Now-trans n m)
          | inr f ↦ rw f (
              weaken _ _ (message_cancel p true w2) (message_cancel-Now w2 m.inv p _ m.at true)
                λ _ w3 k. Now-trans n (Now-trans m k))
        ]

  -- Cancelling an incoming operation does not fault. Unless it is unidirectional the error becomes its
  -- result, if it is the first; the counts are as before, and the caller is counted as a waiter.
  pub cancel_incoming-withdrawn :
      (errno : Errno)
      → o.incoming ≡ true
      → Returns (λ _ w'. Now p (withdrawn errno o) w w') (cancel_incoming p errno w)
  unfolding cancel_incoming
  cancel_incoming-withdrawn errno incoming =
      bind _ _ (load p w) _ (load-Now w v p o at) λ r w1 (same, n).
        let inside : r.incoming ≡ true = ap (λ o. o.incoming) same ∙ incoming in
        let alike : r.unidirectional ≡ o.unidirectional = ap (λ o. o.unidirectional) same in
        let cancelled : Bool → Operation = λ b. record o { errno = final b errno o } in
        rw (inside) (
          bind (λ _ w2. Now p (cancelled r.unidirectional) w w2) _ _ _
            (result_or_cancel r.unidirectional errno w1 n)
            λ _ w2 m.
              let now = subst (λ b. Now p (cancelled b) w w2) alike m in
              let s = (now.inv).sound p (cancelled o.unidirectional) now.at in
              weaken _ _ (modify p (λ o. record o { waiters = o.waiters + 1 }) w2)
                (modify-Now w2 now.inv p (cancelled o.unidirectional) now.at
                  (λ o. record o { waiters = o.waiters + 1 }) (ground arith))
                λ _ w3 k. Now-trans now k)
