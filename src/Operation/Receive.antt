-- ===== src/Operation/Receive.antt =====
-- Receiving data: no fault, the invariant, and the result that a response gives to its operation.
use greybus.Base.{
  ℕ, ◌+◌, ◌-◌, ◌%◌, ◌^◌, ◌≤◌, ◌<◌, ◌≡◌, refl, inl, inr, true, Option, none, some, List, ◌++◌, arith,
  ◌==◌, length, take, drop, Bool-cases, ◌∙◌, sym, subst, Bool-cases,
}
use greybus.Errno.{einprogress}
use greybus.Operation.Message.{header_size, memcpy_lem, memcpy-length}
use greybus.Operation.State.{Operation, World, put, get_active, result_set, queue_request}
use greybus.Operation.Send.{Memory, create_common}
use greybus.Operation.Recv.{
  fill_request, fill_created, create_incoming, accept_request, recv_request,
}
use greybus.Operation.Invariant.{Inv}
use greybus.Operation.Effects.{
  Returns, bind, weaken, Now, with_op-Now, put-frees, get_active-Now, result_set-Now,
  queue_request-Now,
}
use greybus.Operation.Create.{Created, create_common-Created}

abbrev Safe : {A : Type 0} → A → World → Type 0
Safe a w = Inv w

accept_request-Inv :
    (p : ℕ) (o : Operation) (w : World)
    → Inv w
    → w.heap p ≡ some o
    → o.kref ≡ 1
    → o.active ≡ 0
    → Returns Safe (accept_request (some p) w)
accept_request-Inv p o w v at one idle =
    bind _ Safe (get_active p w) _ (get_active-Now w v p o at (omega arith)) λ e w1 h. elim h [
      | inl (y, on, n1) ↦ rw y (
          bind _ Safe (result_set p einprogress w1) _
            (result_set-Now w1 n1.inv p (record o { active = o.active + 1 }) n1.at einprogress)
            λ told w2 (t, n2). elim (Bool-cases told) [
              | inl b ↦ rw b (
                  weaken (λ _ w3. Now p _ w2 w3) Safe (queue_request p w2)
                    (queue_request-Now w2 n2.inv p _ n2.at) (λ _ w3 n3. n3.inv))
              | inr b ↦ rw b n2.inv
            ])
      | inr (y, off, n1) ↦
          rw y (weaken _ Safe (put p w1) (put-frees w1 n1.inv p o n1.at idle one) (λ _ w2 f. f.0))
    ]

fill_request-Now :
    (p id size : ℕ) (bytes : List ℕ) (o : Operation) (w : World)
    → Inv w
    → w.heap p ≡ some o
    → size ≤ length bytes
    → size ≡ o.request.payload_size + header_size
    → Returns
        (λ _ w'. (o' : Operation) × Now p o' w w' × (o'.kref ≡ o.kref) × (o'.active ≡ o.active))
        (fill_request p id size bytes w)
unfolding fill_request
fill_request-Now p id size bytes o w v at h k =
    let s = v.sound p o at in
    let sized = s.request_sized in
    let out = take size bytes ++ drop size o.request.buffer in
    let copied = memcpy_lem size bytes o.request.buffer h (omega arith) in
    rw (at, fill_request, copied)
      (
        record o { id = id; request = record (o.request) { buffer = out } },
        with_op-Now w v p o at _ (record {
          listed = s.listed;
          within = s.within;
          held = s.held;
          request_sized = memcpy-length size bytes o.request.buffer copied ∙ sized;
          response_sized = s.response_sized;
          outgoing = s.outgoing;
        }),
        refl,
        refl,
      )

-- What a new incoming operation is like.
abbrev Accepted : Option ℕ → World → Type 0
Accepted none w' = Inv w'
Accepted (some p) w' =
    Inv w' × (o : Operation) × (w'.heap p ≡ some o) × (o.kref ≡ 1) × (o.active ≡ 0)

fill_created-Accepted :
    (type id size n : ℕ) (bytes : List ℕ) (w w1 : World) (r : Option ℕ)
    → Inv w
    → size ≤ length bytes
    → size ≡ n + header_size
    → Created type n true w r w1
    → Returns Accepted (fill_created id size bytes r w1)
fill_created-Accepted type id size n bytes w w1 none v h e same = subst Inv (sym same) v
fill_created-Accepted type id size n bytes w w1 (some p) v h e
      (o, n1, one, idle, err, inc, ty, sz) =
    bind _ Accepted (fill_request p id size bytes w1) _
      (fill_request-Now p id size bytes o w1 n1.inv n1.at h (ground arith))
      λ _ w2 (o2, n2, k2, a2). (n2.inv, o2, n2.at, k2 ∙ one, a2 ∙ idle)

pub recv_request-Inv :
    (mem : Memory) (id type : ℕ) (bytes : List ℕ) (size : ℕ) (w : World)
    → Inv w
    → header_size ≤ size
    → size ≤ length bytes
    → length bytes < 2 ^ 64
    → Returns Safe (recv_request mem id type bytes size w)
unfolding recv_request create_incoming
recv_request-Inv mem id type bytes size w v h k l =
    let n = (size + 2 ^ 64 - header_size) % 2 ^ 64 in
    bind Accepted Safe (create_incoming mem id type bytes size w) _
      (bind _ Accepted (create_common mem type n 0 true (id == 0) w) _
        (create_common-Created mem type n 0 (id == 0) w v (omega arith) (omega arith) true)
        λ r w1 c. fill_created-Accepted type id size n bytes w w1 r v k (omega arith) c)
      accept
  where
    accept : (r : Option ℕ) (w1 : World) → Accepted r w1 → Returns Safe (accept_request r w1)
    accept none w1 v1 = v1
    accept (some p) w1 (v1, o, at, one, idle) = accept_request-Inv p o w1 v1 at one idle
