-- ===== src/Operation/Wrap.antt =====
-- The counter of a connection's requests, gb_operation_request_send, where its 32 bits wrap.
use greybus.Base.{
  ℕ, ◌+◌, ◌-◌, ◌^◌, ◌≡◌, refl, inl, inr, Bool, false, Option, none, some, arith, ◌==◌, ◌&&◌,
  if◌then◌else◌, Bool-cases, Option-cases, ◌∙◌, ap,
}
use greybus.Errno.{Errno, einprogress, is_success}
use greybus.Operation.Message.{set_operation_id}
use greybus.Operation.State.{
  Operation, Callback, World, M, pure, ◌>>=◌, is_enabled, modify, get_active, put_active, get, put,
  result_set, message_send,
}
use greybus.Operation.Send.{
  abandon, deliver, submit, request_send, assign_id, operation_id, next_cycle, take_cycle,
}
use greybus.Operation.Invariant.{Inv}
use greybus.Operation.Effects.{Returns, bind}
use greybus.Operation.Request.{request_send-Requested}

-- The counter after a call that returns.
abbrev Counts : {A : Type 0} → ℕ → Option (A × World) → Type 0
Counts c none = Unit
Counts c (some (a, w)) = (w.op_cycle ≡ c)

then-Counts :
    {A B : Type 0} (c d : ℕ) (r : Option (A × World)) (f : A → M B)
    → Counts c r
    → ((a : A) (w : World) → w.op_cycle ≡ c → Counts d (f a w))
    → Counts d (elim r [ none ↦ none | some (a, w) ↦ f a w ])
then-Counts c d none f h k = tt
then-Counts c d (some (a, w)) f h k = k a w h

-- A call that leaves the counter.
abbrev Keeps : {A : Type 0} → M A → Type 0
Keeps m = (w : World) → Counts w.op_cycle (m w)

then-Keeps :
    {A B : Type 0} (m : M A) (f : A → M B) → Keeps m → ((a : A) → Keeps (f a)) → Keeps (m >>= f)
then-Keeps m f h k w = then-Counts w.op_cycle w.op_cycle (m w) f (h w) λ a w' e. rw (← e) (k a w')

modify-Keeps : (p : ℕ) (f : Operation → Operation) → Keeps (modify p f)
unfolding modify
modify-Keeps p f w = elim (Option-cases (w.heap p)) [
  | inl e ↦ rw (e, modify) tt
  | inr (o, e) ↦ rw (e, modify) refl
]

get-Keeps : (p : ℕ) → Keeps (get p)
unfolding get
get-Keeps p = modify-Keeps p (λ o. record o { kref = o.kref + 1 })

get_active-Keeps : (p : ℕ) → Keeps (get_active p)
unfolding get_active
get_active-Keeps p w = elim (Option-cases (w.heap p)) [
  | inl e ↦ rw (e, get_active) tt
  | inr (o, e) ↦
      rw (e, get_active)
        (elim (Bool-cases (is_enabled w.state)) [ inl y ↦ rw y refl | inr n ↦ rw n refl ])
]

put_active-Keeps : (p : ℕ) → Keeps (put_active p)
unfolding put_active
put_active-Keeps p w = elim (Option-cases (w.heap p)) [
  | inl e ↦ rw (e, put_active) tt
  | inr (o, e) ↦
      rw (e, put_active) (elim (Bool-cases (o.active == 0)) [ inl y ↦ rw y tt | inr n ↦ rw n refl ])
]

put-Keeps : (p : ℕ) → Keeps (put p)
unfolding put
put-Keeps p w = elim (Option-cases (w.heap p)) [
  | inl e ↦ rw (e, put) tt
  | inr (o, e) ↦
      rw (e, put)
        (elim (Bool-cases (o.kref == 0)) [
          | inl y ↦ rw y tt
          | inr n ↦ rw n (elim (Bool-cases (o.kref == 1)) [ inl y ↦ rw y refl | inr n ↦ rw n refl ])
        ])
]

message_send-Keeps : (p : ℕ) (b : Bool) (answer : Errno) → Keeps (message_send p b answer)
unfolding message_send
message_send-Keeps p b answer w = refl

result_set-Keeps : (p : ℕ) (e : Errno) → Keeps (result_set p e)
unfolding result_set
result_set-Keeps p e w = elim (Option-cases (w.heap p)) [
  | inl x ↦ rw (x, result_set) tt
  | inr (o, x) ↦ rw (x, result_set) refl
]

assign_id-Keeps : (p id : ℕ) → Keeps (assign_id p id)
unfolding assign_id
assign_id-Keeps p id w = elim (Option-cases (w.heap p)) [
  | inl e ↦ rw (e, assign_id) tt
  | inr (o, e) ↦
      rw (e, assign_id)
        (elim (Option-cases (set_operation_id id o.request.buffer)) [
          | inl x ↦ rw x tt
          | inr (bytes, x) ↦ rw x refl
        ])
]

put-Keeps_then : (p : ℕ) (e : Errno) → Keeps (put p >>= λ _. pure e)
put-Keeps_then p e = then-Keeps (put p) (λ _. pure e) (put-Keeps p) (λ _ w. refl)

abandon-Keeps : (p : ℕ) (e : Errno) → Keeps (abandon p e)
unfolding abandon
abandon-Keeps p e = then-Keeps (put_active p) _ (put_active-Keeps p) (λ _. put-Keeps_then p e)

deliver-Keeps : (p : ℕ) (b : Bool) (answer : Errno) → Keeps (deliver p b (pure tt) answer)
unfolding deliver
deliver-Keeps p b answer =
    then-Keeps (message_send p b answer) _ (message_send-Keeps p b answer) λ e.
      elim (Bool-cases (is_success e)) [
        | inl y ↦ λ w. rw y refl
        | inr n ↦ λ w. rw n (abandon-Keeps p e w)
      ]

submit-Keeps : (p : ℕ) (b : Bool) (answer : Errno) → Keeps (submit p b (pure tt) answer)
unfolding submit
submit-Keeps p b answer = then-Keeps (get p) _ (get-Keeps p) λ _.
    then-Keeps (get_active p) _ (get_active-Keeps p) λ e. elim (Bool-cases (is_success e)) [
      | inl y ↦ λ w. rw y (deliver-Keeps p b answer w)
      | inr n ↦ λ w. rw n (put-Keeps_then p e w)
    ]

-- A request that goes out takes the next number of the counter, whatever becomes of it.
request_send-Counts :
    (p : ℕ) (callback : Callback) (answer : Errno) (w : World)
    → Counts (next_cycle w.op_cycle) (request_send p (some callback) answer w)
unfolding request_send take_cycle
request_send-Counts p callback answer w =
    let c = w.op_cycle in
    let set : Operation → Operation = λ r. record r { callback = some callback } in
    then-Counts c (next_cycle c) (modify p set w) _ (modify-Keeps p set w) λ _ w1 e1.
      let e2 : next_cycle w1.op_cycle ≡ next_cycle c = ap next_cycle e1 in
      let w2 : World = record w1 { op_cycle = next_cycle w1.op_cycle } in
      rw (← e2) (
        then-Counts w2.op_cycle w2.op_cycle (assign_id p (operation_id w2.op_cycle) w2) _
          (assign_id-Keeps p (operation_id w2.op_cycle) w2)
          λ _ w3 e3. rw (← e3) (
            then-Keeps (result_set p einprogress) _ (result_set-Keeps p einprogress)
              (λ _. submit-Keeps p false answer) w3))

-- What is known of a call that returns, in one.
both :
    {A : Type 0} (P : A → World → Type 0) (c : ℕ) (r : Option (A × World))
    → Returns P r
    → Counts c r
    → Returns (λ a w. P a w × (w.op_cycle ≡ c)) r
both P c none h k = h
both P c (some (a, w)) h k = (h, k)

-- Two operations after their requests: both are in memory, with the same id, and as often active as
-- before, and once more if the request went out.
pub record Twins (p q : ℕ) (o o' : Operation) (e e' : Errno) (w : World) : Type 0 where
  pub inv : Inv w
  pub one : Operation
  pub other : Operation
  pub at : w.heap p ≡ some one
  pub at_other : w.heap q ≡ some other
  pub same_id : one.id ≡ other.id
  pub active : one.active ≡ (if is_success e then o.active + 1 else o.active)
  pub active_other : other.active ≡ (if is_success e' then o'.active + 1 else o'.active)

-- Where the 32-bit counter of a connection wraps, two requests of different operations that are sent one after
-- the other get the same id: neither faults, each succeeds exactly if the connection is enabled and the
-- host driver takes its message, and then both operations are active at once with that id.
pub operation_id_repeats :
    (p q : ℕ) (o o' : Operation) (callback callback' : Callback) (answer answer' : Errno)
    (w : World)
    → Inv w
    → w.heap p ≡ some o
    → w.heap q ≡ some o'
    → (p == q) ≡ false
    → w.op_cycle ≡ 2 ^ 32 - 2
    → Returns
        (λ (e, e') w'.
          Twins p q o o' e e' w'
          × (is_success e ≡ (is_enabled w.state && is_success answer))
          × (is_success e' ≡ (is_enabled w.state && is_success answer')))
        ((do
          e ← request_send p (some callback) answer
          e' ← request_send q (some callback') answer'
          pure (e, e'))
          w)
unfolding operation_id
operation_id_repeats p q o o' callback callback' answer answer' w v at at' distinct last =
    let post : Errno × Errno → World → Type 0 = λ (e, e') w'.
      Twins p q o o' e e' w'
      × (is_success e ≡ (is_enabled w.state && is_success answer))
      × (is_success e' ≡ (is_enabled w.state && is_success answer')) in
    bind _ post (request_send p (some callback) answer w) _
      (both _ _ _ (request_send-Requested p o callback answer w v at)
        (request_send-Counts p callback answer w))
      λ e w1 ((o1, n1, k1, a1, i1, e1, b1, s1), c1).
        bind _ post (request_send q (some callback') answer' w1) _
          (request_send-Requested q o' callback' answer' w1 n1.inv (n1.elsewhere q distinct ∙ at'))
          λ e' w2 (o2, n2, k2, a2, i2, e2, b2, s2). (
            record {
              inv = n2.inv;
              one = o1;
              other = o2;
              at = n2.elsewhere p (ground arith) ∙ n1.at;
              at_other = n2.at;
              same_id = ground (arith, i1, i2, c1, last);
              active = a1;
              active_other = a2;
            },
            s1,
            s2 ∙ ap (λ s. is_enabled s && is_success answer') n1.state,
          )
