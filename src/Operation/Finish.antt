-- ===== src/Operation/Finish.antt =====
-- The ways out of an operation: greybus_message_sent, gb_operation_work, and gb_operation_cancel.
use greybus.Base.{
  ℕ, ◌+◌, ◌-◌, ◌<◌, ◌≡◌, inl, inr, Bool, true, false, none, some, ◌==◌, arith, if◌then◌else◌, ◌∙◌,
  ap, Bool-cases,
}
use greybus.Errno.{Errno, is_success}
use greybus.Operation.State.{
  Operation, World, M, sync, pure, modify, load, put_active, put, result_set, next_errno,
  message_cancel, queue_completion, ◌>>◌, ◌>>=◌,
}
use greybus.Operation.Send.{Memory}
use greybus.Operation.Work.{Handler, message_sent, run_callback, work, cancel}
use greybus.Operation.Invariant.{Inv}
use greybus.Operation.Effects.{
  Returns, bind, weaken, Now, Now-trans, here, modify-Now, load-Now, put-Now, put-frees,
  put_active-Now, result_set-Now, message_cancel-Now, queue_completion-Now,
}

-- An activation and a reference are given back: the operation is freed with its last reference, and
-- no other operation changes.
pub record Finished (p : ℕ) (o : Operation) (w w' : World) : Type 0 where
  pub inv : Inv w'
  pub elsewhere : (q : ℕ) → (p == q) ≡ false → w'.heap q ≡ w.heap q
  pub freed : o.kref ≡ 1 → w'.heap p ≡ none
  pub kept : 1 < o.kref → w'.heap p ≡ some (record o { active = o.active - 1; kref = o.kref - 1 })

module _ (p : ℕ) (o : Operation) (w0 w : World) (n : Now p o w0 w) (busy : 0 < o.active) where
  put-Finished :
      (w1 : World)
      → Now p (record o { active = o.active - 1 }) w w1
      → Returns (λ _ w'. Finished p o w0 w') (put p w1)
  put-Finished w1 m =
      let s = (n.inv).sound p o n.at in
      let within = s.within in
      elim (Bool-cases (o.kref == 1)) [
        | inl last ↦
            let one : o.kref ≡ 1 = ground arith in
            weaken _ (λ _ w'. Finished p o w0 w') (put p w1)
              (put-frees w1 m.inv p (record o { active = o.active - 1 }) m.at (omega arith) one)
              λ _ w' (v, out, same). record {
                inv = v;
                elsewhere = λ q x. same q x ∙ (m.elsewhere q x ∙ n.elsewhere q x);
                freed = λ _. out;
                kept = λ more. absurd (omega arith);
              }
        | inr many ↦
            let more : 1 < o.kref = ground arith in
            weaken _ (λ _ w'. Finished p o w0 w') (put p w1)
              (put-Now w1 m.inv p (record o { active = o.active - 1 }) m.at (omega arith) more)
              λ _ w' k. record {
                inv = k.inv;
                elsewhere = λ q x. k.elsewhere q x ∙ (m.elsewhere q x ∙ n.elsewhere q x);
                freed = λ one. absurd (omega arith);
                kept = λ _. k.at;
              }
      ]

  pub finish-Finished : Returns (λ _ w'. Finished p o w0 w') ((put_active p >> put p) w)
  finish-Finished =
      bind (λ _ w1. Now p (record o { active = o.active - 1 }) w w1) _ (put_active p w) _
        (put_active-Now w n.inv p o n.at busy) λ _ w1 m. put-Finished w1 m

-- What the host driver's report of a message does: nothing for a request that was sent.
abbrev pub Sent : ℕ → Operation → Bool → Errno → World → World → Type 0
Sent p o true status w w' = Finished p o w w'
Sent p o false status w w' =
    Now p (if is_success status then o else record o { errno = (next_errno o.errno status).0 }) w w'

-- The work of an operation that was cancelled: its counts are as before, the error is recorded if it
-- is the first result, and there is one waiter more.
abbrev pub Cancelled : ℕ → Operation → Errno → World → World → Type 0
Cancelled p o e w w' =
    Now p (record o { errno = (next_errno o.errno e).0; waiters = o.waiters + 1 }) w w'

module _ (p : ℕ) (o : Operation) (w : World) (v : Inv w) (at : w.heap p ≡ some o) where
  failed-Sent :
      (status : Errno)
      → Returns
          (λ _ w'. Now p (record o { errno = (next_errno o.errno status).0 }) w w')
          ((do recorded ← result_set p status; if recorded then queue_completion p else pure tt) w)
  failed-Sent status =
      bind _ _ (result_set p status w) _ (result_set-Now w v p o at status) λ told w1 (q, n).
        elim (Bool-cases told) [
          | inl t ↦ rw t (
              weaken _ _ (queue_completion p w1) (queue_completion-Now w1 n.inv p _ n.at)
                λ _ w2 m. Now-trans n m)
          | inr f ↦ rw f n
        ]

  -- The report that a message of an active operation was sent is taken without a fault. After a response the operation loses
  -- an activation and a reference; a failure to send a request is recorded, as the first result or
  -- not at all; a request that was sent changes nothing.
  pub message_sent-Sent :
      (is_response : Bool) (status : Errno)
      → 0 < o.active
      → Returns (λ _ w'. Sent p o is_response status w w') (message_sent p is_response status w)
  unfolding message_sent
  message_sent-Sent true status busy = finish-Finished p o w w (here w v p o at) busy
  message_sent-Sent false status busy = elim (Bool-cases (is_success status)) [
    | inl good ↦ rw good (here w v p o at)
    | inr bad ↦ rw bad (failed-Sent status)
  ]

  -- The completion of a synchronous, active, outgoing request is signalled, and its activation and reference given
  -- back, without a fault.
  pub work-Finished :
      (handler : Handler) (user_callback : ℕ → M (Unit {0})) (mem : Memory) (answer : Errno)
      → o.incoming ≡ false
      → o.callback ≡ some sync
      → 0 < o.active
      → Returns
          (λ _ w'. Finished p (record o { completed = true }) w w')
          (work handler user_callback mem answer p w)
  unfolding work run_callback
  work-Finished handler user_callback mem answer outgoing synchronous busy =
      bind _ _ (load p w) _ (load-Now w v p o at) λ r w1 (same, n).
        let s = (n.inv).sound p o n.at in
        let out : r.incoming ≡ false = ap (λ o. o.incoming) same ∙ outgoing in
        let signal : r.callback ≡ some sync = ap (λ o. o.callback) same ∙ synchronous in
        rw (out, signal, run_callback)
          (bind (λ _ w2. Now p (record o { completed = true }) w1 w2) _
            (modify p (λ o. record o { completed = true }) w1) _
            (modify-Now w1 n.inv p o n.at (λ o. record o { completed = true }) (ground arith))
            λ _ w2 m. finish-Finished p (record o { completed = true }) w w2 (Now-trans n m) busy)

  hand_over :
      (r : Operation) (w1 : World) (told : Bool)
      → Now p r w w1
      → Returns
          (λ _ w2. Now p r w w2)
          ((if told then (do message_cancel p false; queue_completion p) else pure tt) w1)
  hand_over r w1 false n = n
  hand_over r w1 true n =
      bind _ _ (message_cancel p false w1) _ (message_cancel-Now w1 n.inv p r n.at false) λ _ w2 m.
        weaken _ _ (queue_completion p w2) (queue_completion-Now w2 m.inv p r m.at)
          λ _ w3 k. Now-trans n (Now-trans m k)

  wait_for :
      (errno : Errno) (w1 : World) (told : Bool)
      → Now p (record o { errno = (next_errno o.errno errno).0 }) w w1
      → Returns
          (λ _ w'. Cancelled p o errno w w')
          ((do
            if told then (do message_cancel p false; queue_completion p) else pure tt
            modify p λ o. record o { waiters = o.waiters + 1 })
            w1)
  wait_for errno w1 told n =
      let r : Operation = record o { errno = (next_errno o.errno errno).0 } in
      bind _ _ ((if told then (do message_cancel p false; queue_completion p) else pure tt) w1) _
        (hand_over r w1 told n)
        λ _ w2 m.
          let s = (m.inv).sound p r m.at in
          weaken _ _ (modify p (λ o. record o { waiters = o.waiters + 1 }) w2)
            (modify-Now w2 m.inv p r m.at (λ o. record o { waiters = o.waiters + 1 })
              (ground arith))
            λ _ w3 k. Now-trans m k

  -- Cancelling an outgoing operation does not fault and records its error, if it is the first result;
  -- the counts are as before, and the caller is counted as a waiter.
  pub cancel-Cancelled :
      (errno : Errno)
      → o.incoming ≡ false
      → Returns (λ _ w'. Cancelled p o errno w w') (cancel p errno w)
  unfolding cancel
  cancel-Cancelled errno outgoing = bind _ _ (load p w) _ (load-Now w v p o at) λ r w1 (same, n).
      let out : r.incoming ≡ false = ap (λ o. o.incoming) same ∙ outgoing in
      rw (out) (
        bind _ _ (result_set p errno w1) _ (result_set-Now w1 n.inv p o n.at errno)
          λ told w2 (q, m). wait_for errno w2 told (Now-trans n m))
