-- ===== src/Operation/Complete.antt =====
-- What gb_connection_recv_response does to the operation that it found.
use greybus.Base.{
  ℕ, ◌+◌, ◌-◌, ◌≤◌, ◌<◌, ◌≡◌, refl, inl, inr, Bool, true, false, some, List, ◌++◌, arith, length,
  take, drop, Bool-cases, ◌∙◌, ap, if◌then◌else◌,
}
use greybus.Errno.{Errno, is_einprogress}
use greybus.Operation.Message.{Message, header_size, memcpy_lem, memcpy-length}
use greybus.Operation.Status.{status_map}
use greybus.Operation.State.{
  Operation, World, M, pure, ◌>>◌, put, result_set, next_errno, queue_completion,
}
use greybus.Operation.Recv.{response_errno, fill_response, kept, complete_response}
use greybus.Operation.Invariant.{IsSized, Inv}
use greybus.Operation.Effects.{
  Returns, bind, weaken, Now, Now-trans, with_op-Now, put-Now, result_set-Now, queue_completion-Now,
}

-- What the arrival of a response does to the operation that waits for it: its first result sticks,
-- its counts are as before, and no other operation changes.
abbrev pub Completed : ℕ → Errno → Operation → World → World → Type 0
Completed p e o w w' =
    (o' : Operation) × Now p o' w w'
    × (o'.kref ≡ o.kref)
    × (o'.active ≡ o.active)
    × (o'.errno ≡ (if is_einprogress o.errno then e else o.errno))

response_errno_final :
    (result size : ℕ) (m : Message) (e : Errno)
    → (next_errno e (response_errno result size m)
        ≡ (if is_einprogress e then (response_errno result size m, true) else (e, false)))
unfolding next_errno response_errno status_map
response_errno_final result size m e = ground arith

fill_response-Now :
    (p size : ℕ) (bytes : List ℕ) (o : Operation) (m : Message) (w : World)
    → Inv w
    → w.heap p ≡ some o
    → o.response ≡ some m
    → IsSized m
    → size ≤ length bytes
    → size ≤ m.payload_size + header_size
    → Returns
        (λ _ w'.
          (o' : Operation) × Now p o' w w'
          × (o'.kref ≡ o.kref)
          × (o'.active ≡ o.active)
          × (o'.errno ≡ o.errno))
        (fill_response p size bytes w)
unfolding fill_response
fill_response-Now p size bytes o m w v at r sized h k =
    let s = v.sound p o at in
    let out = take size bytes ++ drop size m.buffer in
    let copied = memcpy_lem size bytes m.buffer h (omega arith) in
    rw (at, fill_response, r, copied)
      (
        record o { response = some (record m { buffer = out }) },
        with_op-Now w v p o at _ (record {
          listed = s.listed;
          within = s.within;
          held = s.held;
          request_sized = s.request_sized;
          response_sized = memcpy-length size bytes m.buffer copied ∙ sized;
          outgoing = λ x. refl;
        }),
        refl,
        refl,
        refl,
      )

kept_fits :
    (result size : ℕ) (bytes : List ℕ) (m : Message)
    → size ≤ length bytes
    → header_size ≤ length bytes
    → (kept (response_errno result size m) size ≤ length bytes)
      × (kept (response_errno result size m) size ≤ m.payload_size + header_size)
unfolding response_errno status_map
kept_fits result size bytes m h k = ground arith

module _ (p result size : ℕ) (bytes : List ℕ) (m : Message) (h : size ≤ length bytes)
    (k : header_size ≤ length bytes) where
  abbrev e : Errno
  e = response_errno result size m

  -- After the result is set, with the reference that the search took.
  record_response : Bool → M (Unit {0})
  record_response told =
      (if told then (do fill_response p (kept e size) bytes; queue_completion p) else pure tt)
      >> put p

  finish :
      (o r : Operation) (w w1 : World)
      → Now p r w w1
      → r.kref ≡ o.kref + 1
      → r.active ≡ o.active
      → o.active ≤ o.kref
      → 0 < o.kref
      → r.errno ≡ (if is_einprogress o.errno then e else o.errno)
      → Returns (λ _ w'. Completed p e o w w') (put p w1)
  finish o r w w1 n a b c d f =
      weaken _ _ (put p w1) (put-Now w1 n.inv p r n.at (omega arith) (omega arith))
        λ _ w2 n2. (record r { kref = r.kref - 1 }, Now-trans n n2, omega arith, b, f)

  abbrev Filled : Operation → World → World → Type 0
  Filled o w w' =
      (r : Operation) × Now p r w w'
      × (r.kref ≡ o.kref + 1)
      × (r.active ≡ o.active)
      × (r.errno ≡ (if is_einprogress o.errno then e else o.errno))

  pub complete_response-Completed :
      (o r : Operation) (w w1 : World)
      → Now p r w w1
      → Inv w
      → w.heap p ≡ some o
      → r ≡ record o { kref = o.kref + 1 }
      → o.response ≡ some m
      → Returns (λ _ w'. Completed p e o w w') (complete_response p result bytes size r w1)
  complete_response-Completed o r w w1 n v at same res =
      let s = v.sound p o at in
      let sized : IsSized m = ground (arith, s.response_sized) in
      let fits = kept_fits result size bytes m h k in
      let set_to = response_errno_final result size m r.errno in
      let counts : (r.kref ≡ o.kref + 1)
          × (r.active ≡ o.active)
          × (r.errno ≡ o.errno)
          × (r.response ≡ some m) =
        (
          ap (λ (x : Operation). x.kref) same,
          ap (λ (x : Operation). x.active) same,
          ap (λ (x : Operation). x.errno) same,
          ap (λ (x : Operation). x.response) same ∙ res,
        ) in
      let final : (next_errno r.errno e).0 ≡ (if is_einprogress o.errno then e else o.errno) =
        ground arith in
      rw (counts.3) (
        bind _ _ (result_set p e w1) _ (result_set-Now w1 n.inv p r n.at e) λ told w2 (t, n2).
          elim (Bool-cases told) [
            | inl y ↦ rw y (
                bind _ _ ((fill_response p (kept e size) bytes >> queue_completion p) w2) _
                  (bind _ (λ _ w4. Filled o w w4) (fill_response p (kept e size) bytes w2) _
                    (fill_response-Now p (kept e size) bytes _ m w2 n2.inv n2.at (counts.3) sized
                      (fits.0) (fits.1))
                    λ _ w3 (r3, n3, k3, a3, f3).
                      weaken _ (λ _ w4. Filled o w w4) (queue_completion p w3)
                        (queue_completion-Now w3 n3.inv p r3 n3.at)
                        λ _ w4 n4. (
                          r3,
                          Now-trans n (Now-trans n2 (Now-trans n3 n4)),
                          k3 ∙ counts.0,
                          a3 ∙ counts.1,
                          f3 ∙ final,
                        ))
                  λ _ w4 (r4, n4, k4, a4, f4). finish o r4 w w4 n4 k4 a4 s.within s.held f4)
            | inr y ↦
                rw y (finish o _ w w2 (Now-trans n n2) (counts.0) (counts.1) s.within s.held final)
          ])
