-- ===== src/Operation/Effects.antt =====
-- What each helper of `State` does to one operation, and that it keeps the invariant: total
-- statements, which also say that no fault happens.
use greybus.Base.{
  ℕ, ◌+◌, ◌-◌, ◌<◌, ◌≡◌, refl, ◌⊎◌, inl, inr, Bool, true, false, none, some, List, [], ◌∷◌, ◌++◌,
  arith, ◌==◌, ◌∙◌, if◌then◌else◌, erase, has-append, has-erase_self, Bool-cases,
}
pub use greybus.Base.Monad.{Returns, bind, weaken}
use greybus.Errno.{Errno, success, enotconn}
use greybus.Operation.State.{
  Operation, World, with_op, update, is_enabled, load, modify, get_active, put_active, get, put,
  result_set, next_errno, message_send, message_cancel, queue_completion, queue_request,
}
use greybus.Operation.Send.{take_cycle, next_cycle}
use greybus.Operation.Invariant.{IsSound, Inv, Inv-with_op, Inv-free, Inv-enter, Inv-leave}

-- From `w` to `w'` only the operation `p` changed, to `o`, and the invariant holds.
pub record Now (p : ℕ) (o : Operation) (w w' : World) : Type 0 where
  pub inv : Inv w'
  pub at : w'.heap p ≡ some o
  pub state : w'.state ≡ w.state
  pub elsewhere : (q : ℕ) → (p == q) ≡ false → w'.heap q ≡ w.heap q

pub Now-trans :
    {p : ℕ} {o o' : Operation} {w w' w'' : World} → Now p o w w' → Now p o' w' w'' → Now p o' w w''
Now-trans a b = record {
  inv = b.inv;
  at = b.at;
  state = b.state ∙ a.state;
  elsewhere = λ q n. b.elsewhere q n ∙ a.elsewhere q n;
}

module _ (w : World) (v : Inv w) (p : ℕ) (o : Operation) (at : w.heap p ≡ some o) where
  pub here : Now p o w w
  here = record { inv = v; at = at; state = refl; elsewhere = λ q n. refl }

  pub with_op-Now : (o' : Operation) → IsSound w.operations p o' → Now p o' w (with_op w p o')
  with_op-Now o' s = record {
    inv = Inv-with_op w v p o o' at s;
    at = ground arith;
    state = refl;
    elsewhere = λ q n. ground arith;
  }

  pub load-Now : Returns (λ r w'. (r ≡ o) × Now p o w w') (load p w)
  unfolding load
  load-Now = rw (at, load) (refl, here)

  pub modify-Now :
      (f : Operation → Operation)
      → IsSound w.operations p (f o)
      → Returns (λ _ w'. Now p (f o) w w') (modify p f w)
  unfolding modify
  modify-Now f s = rw (at, modify) (with_op-Now (f o) s)

  pub modify-cycle :
      (f : Operation → Operation)
      → IsSound w.operations p (f o)
      → Returns (λ _ w'. Now p (f o) w w' × (w'.op_cycle ≡ w.op_cycle)) (modify p f w)
  unfolding modify
  modify-cycle f s = rw (at, modify) (with_op-Now (f o) s, refl)

  pub get-Now : Returns (λ _ w'. Now p (record o { kref = o.kref + 1 }) w w') (get p w)
  unfolding get
  get-Now =
      modify-Now (λ o. record o { kref = o.kref + 1 }) (let s = v.sound p o at in ground arith)

  pub result_set-Now :
      (r : Errno)
      → Returns
          (λ told w'.
            (told ≡ (next_errno o.errno r).1)
            × Now p (record o { errno = (next_errno o.errno r).0 }) w w')
          (result_set p r w)
  unfolding result_set
  result_set-Now r =
      rw (at, result_set) (refl, with_op-Now _ (let s = v.sound p o at in ground arith))

  pub put-Now :
      o.active < o.kref
      → 1 < o.kref
      → Returns (λ _ w'. Now p (record o { kref = o.kref - 1 }) w w') (put p w)
  unfolding put
  put-Now h k =
      let many : (o.kref == 0) ≡ false = ground arith in
      let more : (o.kref == 1) ≡ false = ground arith in
      let s = v.sound p o at in
      rw (at, put, many, more) (with_op-Now (record o { kref = o.kref - 1 }) (ground arith))

  -- The last reference of an idle operation: it is freed.
  pub put-frees :
      o.active ≡ 0
      → o.kref ≡ 1
      → Returns
          (λ _ w'.
            Inv w' × (w'.heap p ≡ none) × ((q : ℕ) → (p == q) ≡ false → w'.heap q ≡ w.heap q))
          (put p w)
  unfolding put
  put-frees h k =
      let many : (o.kref == 0) ≡ false = ground arith in
      let last : (o.kref == 1) ≡ true = ground arith in
      rw (at, put, many, last) (Inv-free w v p o at h, ground arith, λ q n. ground arith)

  activated :
      o.active < o.kref
      → Now p
          (record o { active = o.active + 1 })
          w
          (record w {
            heap = update w.heap p (some (record o { active = o.active + 1 }));
            operations = if o.active == 0 then w.operations ++ p ∷ [] else w.operations;
          })
  activated h =
      let s = v.sound p o at in
      elim (Bool-cases (o.active == 0)) [
        | inl e ↦ rw e (record {
          inv =
              Inv-enter w v p o (record o { active = o.active + 1 }) at (ground arith)
                (ground (arith, has-append p w.operations (p ∷ [])));
          at = ground arith;
          state = refl;
          elsewhere = λ q n. ground arith;
        })
        | inr e ↦ rw e (record {
          inv = Inv-with_op w v p o (record o { active = o.active + 1 }) at (ground arith);
          at = ground arith;
          state = refl;
          elsewhere = λ q n. ground arith;
        })
      ]

  deactivated :
      0 < o.active
      → Now p
          (record o { active = o.active - 1 })
          w
          (record w {
            heap = update w.heap p (some (record o { active = o.active - 1 }));
            operations = if o.active == 1 then erase p w.operations else w.operations;
          })
  deactivated h =
      let s = v.sound p o at in
      elim (Bool-cases (o.active == 1)) [
        | inl e ↦ rw e (record {
          inv =
              Inv-leave w v p o (record o { active = o.active - 1 }) at
                (ground (arith, has-erase_self p w.operations v.distinct));
          at = ground arith;
          state = refl;
          elsewhere = λ q n. ground arith;
        })
        | inr e ↦ rw e (record {
          inv = Inv-with_op w v p o (record o { active = o.active - 1 }) at (ground arith);
          at = ground arith;
          state = refl;
          elsewhere = λ q n. ground arith;
        })
      ]

  pub get_active-Now :
      o.active < o.kref
      → Returns
          (λ e w'.
            ((e ≡ success)
              × (is_enabled w.state ≡ true)
              × Now p (record o { active = o.active + 1 }) w w')
            ⊎ ((e ≡ enotconn) × (is_enabled w.state ≡ false) × Now p o w w'))
          (get_active p w)
  unfolding get_active
  get_active-Now h = elim (Bool-cases (is_enabled w.state)) [
    | inl e ↦ rw (at, get_active, e) (inl (refl, refl, activated h))
    | inr e ↦ rw (at, get_active, e) (inr (refl, refl, here))
  ]

  pub put_active-Now :
      0 < o.active
      → Returns (λ _ w'. Now p (record o { active = o.active - 1 }) w w') (put_active p w)
  unfolding put_active
  put_active-Now h =
      let some_left : (o.active == 0) ≡ false = ground arith in
      rw (at, put_active, some_left) (deactivated h)

-- Writes to the other fields leave the operations alone.
module _ (w : World) (v : Inv w) (p : ℕ) (o : Operation) (at : w.heap p ≡ some o) where
  pub take_cycle-Now : Returns (λ c w'. (c ≡ next_cycle w.op_cycle) × Now p o w w') (take_cycle w)
  unfolding take_cycle
  take_cycle-Now = (
    refl,
    record {
      inv = record { distinct = v.distinct; live = v.live; fresh = v.fresh; sound = v.sound };
      at = at;
      state = refl;
      elsewhere = λ q n. refl;
    },
  )

  logs_Now :
      (wq completion_wq : List ℕ) (sent cancelled : List (ℕ × Bool))
      → Now p o w
          (record w { wq = wq; completion_wq = completion_wq; sent = sent; cancelled = cancelled })
  logs_Now a b c d = record {
    inv = record { distinct = v.distinct; live = v.live; fresh = v.fresh; sound = v.sound };
    at = at;
    state = refl;
    elsewhere = λ q n. refl;
  }

  pub message_send-Now :
      (is_response : Bool) (answer : Errno)
      → Returns (λ e w'. (e ≡ answer) × Now p o w w') (message_send p is_response answer w)
  unfolding message_send
  message_send-Now is_response answer = (refl, logs_Now _ _ _ _)

  pub message_cancel-Now :
      (is_response : Bool) → Returns (λ _ w'. Now p o w w') (message_cancel p is_response w)
  unfolding message_cancel
  message_cancel-Now is_response = logs_Now _ _ _ _

  pub queue_completion-Now : Returns (λ _ w'. Now p o w w') (queue_completion p w)
  unfolding queue_completion
  queue_completion-Now = logs_Now _ _ _ _

  pub queue_request-Now : Returns (λ _ w'. Now p o w w') (queue_request p w)
  unfolding queue_request
  queue_request-Now = logs_Now _ _ _ _
