-- ===== src/Operation/Request.antt =====
-- gb_operation_request_send as a whole, and the ids that it gives.
use greybus.Base.{
  ℕ, zero, suc, ◌+◌, ◌%◌, ◌^◌, ◌≤◌, ◌<◌, ◌≡◌, ◌≢◌, refl, false, some, List, [], ◌∷◌, ◌&&◌, arith,
  if◌then◌else◌, ◌∙◌, ap, length,
}
use greybus.Errno.{Errno, einprogress, is_success}
use greybus.Operation.Message.{header_size, set_operation_id}
use greybus.Operation.State.{
  Operation, Callback, World, pure, modify, result_set, next_errno, is_enabled,
}
use greybus.Operation.Send.{submit, request_send, assign_id, operation_id, next_cycle, take_cycle}
use greybus.Operation.Invariant.{Inv}
use greybus.Operation.Effects.{
  Returns, bind, weaken, Now, Now-trans, modify-cycle, result_set-Now, take_cycle-Now, with_op-Now,
}
use greybus.Operation.Submit.{Fills, Submitted, submit-Submitted}

set_operation_id_lem :
    (id : ℕ) (xs : List ℕ)
    → header_size ≤ length xs
    → (out : List ℕ) × (set_operation_id id xs ≡ some out) × (length out ≡ length xs)
unfolding set_operation_id
set_operation_id_lem id [] h = absurd (omega arith)
set_operation_id_lem id (a ∷ []) h = absurd (omega arith)
set_operation_id_lem id (a ∷ b ∷ []) h = absurd (omega arith)
set_operation_id_lem id (a ∷ b ∷ c ∷ []) h = absurd (omega arith)
set_operation_id_lem id (a ∷ b ∷ c ∷ d ∷ xs) h = (_, refl, refl)

module _ (w : World) (v : Inv w) (p : ℕ) (o : Operation) (at : w.heap p ≡ some o) where
  assign_id-Now :
      (id : ℕ)
      → Returns
          (λ _ w'.
            (o' : Operation) × Now p o' w w'
            × (o'.kref ≡ o.kref)
            × (o'.active ≡ o.active)
            × (o'.id ≡ id)
            × (o'.errno ≡ o.errno)
            × (o'.callback ≡ o.callback))
          (assign_id p id w)
  unfolding assign_id
  assign_id-Now id =
      let s = v.sound p o at in
      let sized = s.request_sized in
      let (out, e, len) = set_operation_id_lem id o.request.buffer (omega arith) in
      rw (at, assign_id, e)
        (
          record o { id = id; request = record (o.request) { buffer = out } },
          with_op-Now w v p o at _ (record {
            listed = s.listed;
            within = s.within;
            held = s.held;
            request_sized = len ∙ sized;
            response_sized = s.response_sized;
            outgoing = s.outgoing;
          }),
          refl,
          refl,
          refl,
          refl,
          refl,
        )

-- What a request leaves behind.
abbrev pub Requested : ℕ → Operation → World → Callback → Errno → Errno → World → Type 0
Requested p o w callback answer e w' =
    (o' : Operation) × Now p o' w w'
    × (o'.kref ≡ (if is_success e then o.kref + 1 else o.kref))
    × (o'.active ≡ (if is_success e then o.active + 1 else o.active))
    × (o'.id ≡ operation_id (next_cycle w.op_cycle))
    × (o'.errno ≡ (next_errno o.errno einprogress).0)
    × (o'.callback ≡ some callback)
    × (is_success e ≡ (is_enabled w.state && is_success answer))

Fills-pure : (p : ℕ) (o : Operation) → Fills p o (pure tt)
Fills-pure p o w r v at same = (
  r,
  record { inv = v; at = at; state = refl; elsewhere = λ q n. refl },
  refl,
  refl,
  record { id = refl; errno = refl; incoming = refl; callback = refl },
)

-- Sending a request returns without a fault and keeps the invariant. It succeeds exactly when the
-- connection is enabled and the host driver takes the message, and then the operation has one more
-- reference and is active once more; on every failure both counts are as before. Either way the
-- operation has the next id, its callback, and a result in progress, and no other operation changed.
pub request_send-Requested :
    (p : ℕ) (o : Operation) (callback : Callback) (answer : Errno) (w : World)
    → Inv w
    → w.heap p ≡ some o
    → Returns (Requested p o w callback answer) (request_send p (some callback) answer w)
unfolding request_send
request_send-Requested p o callback answer w v at =
    let s = v.sound p o at in
    let o1 : Operation = record o { callback = some callback } in
    let post = Requested p o w callback answer in
    bind _ post (modify p (λ r. record r { callback = some callback }) w) _
      (modify-cycle w v p o at (λ r. record r { callback = some callback }) (ground arith))
      λ _ w1 (n1, c1).
        bind _ post (take_cycle w1) _ (take_cycle-Now w1 n1.inv p o1 n1.at) λ c w2 (ec, n2).
          bind _ post (assign_id p (operation_id c) w2) _
            (assign_id-Now w2 n2.inv p o1 n2.at (operation_id c))
            λ _ w3 (o3, n3, k3, a3, i3, e3, b3).
              bind _ post (result_set p einprogress w3) _
                (result_set-Now w3 n3.inv p o3 n3.at einprogress)
                λ _ w4 (told, n4).
                  let o4 : Operation = record o3 { errno = (next_errno o3.errno einprogress).0 } in
                  weaken (Submitted p o4 w4 answer) post (submit p false (pure tt) answer w4)
                    (submit-Submitted p o4 false (pure tt) answer (Fills-pure p o4) w4 n4.inv n4.at)
                    λ e w5 (o5, n5, k5, a5, s5, q). (
                      o5,
                      Now-trans n1 (Now-trans n2 (Now-trans n3 (Now-trans n4 n5))),
                      ground arith,
                      ground arith,
                      s5.id ∙ (i3 ∙ (ap operation_id (ec ∙ ap next_cycle c1))),
                      s5.errno ∙ ap (λ x. (next_errno x einprogress).0) e3,
                      s5.callback ∙ b3,
                      q
                          ∙ ap (λ x. is_enabled x && is_success answer)
                              (n4.state ∙ (n3.state ∙ (n2.state ∙ n1.state))),
                    )

-- Request ids are never 0, the reserved id, and fit a u16.
pub operation_id_range : (c : ℕ) → (0 < operation_id c) × (operation_id c < 2 ^ 16)
unfolding operation_id
operation_id_range c = omega arith

-- The counter after `n` requests.
cycles : ℕ → ℕ → ℕ
cycles zero c = c
cycles (suc n) c = next_cycle (cycles n c)

cycles_lem : (n c : ℕ) → c < 2 ^ 32 → cycles n c ≡ (c + n) % 2 ^ 32
unfolding cycles
cycles_lem zero c h = omega arith
cycles_lem (suc n) c h = omega (arith, cycles_lem n c h)

-- Two of 65535 consecutive requests have different ids while the 32-bit counter does not wrap.
operation_id_distinct :
    (c i j : ℕ)
    → i < j
    → j < 65535
    → c + j < 2 ^ 32
    → operation_id (cycles i c) ≢ operation_id (cycles j c)
unfolding operation_id
operation_id_distinct c i j h k l =
    omega (arith, cycles_lem i c (omega arith), cycles_lem j c (omega arith))
