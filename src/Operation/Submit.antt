-- ===== src/Operation/Submit.antt =====
-- Sending: what gb_operation_request_send does to an operation, on each of its ways out.
use greybus.Base.{
  ℕ, ◌+◌, ◌-◌, ◌≤◌, ◌<◌, ◌≡◌, refl, inl, inr, Bool, true, some, ◌&&◌, arith, if◌then◌else◌, ◌∙◌,
  Bool-cases,
}
use greybus.Errno.{Errno, success, enotconn, is_success}
use greybus.Operation.State.{
  Operation, World, M, pure, get_active, put_active, get, put, message_send, is_enabled, ◌>>◌,
}
use greybus.Operation.Send.{abandon, deliver, submit}
use greybus.Operation.Invariant.{Inv}
use greybus.Operation.Effects.{
  Returns, bind, weaken, Now, Now-trans, get-Now, put-Now, get_active-Now, put_active-Now,
  message_send-Now,
}

-- What stays of an operation while it is submitted, but for its references and its response.
pub record Same (o o' : Operation) : Type 0 where
  pub id : o'.id ≡ o.id
  pub errno : o'.errno ≡ o.errno
  pub incoming : o'.incoming ≡ o.incoming
  pub callback : o'.callback ≡ o.callback

-- `fill` completes the message and nothing else.
abbrev pub Fills : ℕ → Operation → M (Unit {0}) → Type 0
Fills p o fill =
    (w : World) (r : Operation)
    → Inv w
    → w.heap p ≡ some r
    → r.response ≡ o.response
    → Returns
        (λ _ w'.
          (r' : Operation) × Now p r' w w'
          × (r'.kref ≡ r.kref)
          × (r'.active ≡ r.active)
          × Same r r')
        (fill w)

-- One reference and one activation more if the message was handed over, none otherwise.
abbrev pub Submitted : ℕ → Operation → World → Errno → Errno → World → Type 0
Submitted p o w answer e w' =
    (o' : Operation) × Now p o' w w'
    × (o'.kref ≡ (if is_success e then o.kref + 1 else o.kref))
    × (o'.active ≡ (if is_success e then o.active + 1 else o.active))
    × Same o o'
    × (is_success e ≡ (is_enabled w.state && is_success answer))

-- The operation has the references and activations that it had at first.
abbrev Restored : ℕ → Operation → World → Errno → Errno → World → Type 0
Restored p o w ret e w' =
    (o' : Operation) × Now p o' w w'
    × (o'.kref ≡ o.kref)
    × (o'.active ≡ o.active)
    × Same o o'
    × (e ≡ ret)

module _ (p : ℕ) (o r : Operation) (w w2 : World) (ret : Errno) (n : Now p r w w2)
    (s : Same o r) where
  drop_reference :
      r.kref ≡ o.kref + 1
      → r.active ≡ o.active
      → o.active ≤ o.kref
      → 0 < o.kref
      → Returns (Restored p o w ret) ((put p >> pure ret) w2)
  drop_reference h k le pos =
      bind (λ _ w3. Now p (record r { kref = r.kref - 1 }) w2 w3) (Restored p o w ret) (put p w2) _
        (put-Now w2 n.inv p r n.at (omega arith) (omega arith))
        λ _ w3 n3. (
          record r { kref = r.kref - 1 },
          Now-trans n n3,
          omega arith,
          omega arith,
          record { id = s.id; errno = s.errno; incoming = s.incoming; callback = s.callback },
          refl,
        )

abandon-Restored :
    (p : ℕ) (o r : Operation) (w w2 : World) (ret : Errno)
    → Now p r w w2
    → Same o r
    → r.kref ≡ o.kref + 1
    → r.active ≡ o.active + 1
    → o.active ≤ o.kref
    → 0 < o.kref
    → Returns (Restored p o w ret) (abandon p ret w2)
unfolding abandon
abandon-Restored p o r w w2 ret n s h k le pos =
    bind (λ _ w3. Now p (record r { active = r.active - 1 }) w2 w3) (Restored p o w ret)
      (put_active p w2) _ (put_active-Now w2 n.inv p r n.at (omega arith))
      λ _ w3 n3.
        drop_reference p o (record r { active = r.active - 1 }) w w3 ret (Now-trans n n3)
          (record { id = s.id; errno = s.errno; incoming = s.incoming; callback = s.callback }) h
          (omega arith) le pos

module _ (p : ℕ) (o : Operation) (is_response : Bool) (fill : M (Unit {0})) (answer : Errno)
    (fills : Fills p o fill) (w : World) (le : o.active ≤ o.kref) (pos : 0 < o.kref) where
  sent-Submitted :
      (r : Operation) (w3 : World) (e : Errno)
      → Now p r w w3
      → Same o r
      → r.kref ≡ o.kref + 1
      → r.active ≡ o.active + 1
      → is_enabled w.state ≡ true
      → e ≡ answer
      → Returns (Submitted p o w answer) ((if is_success e then pure success else abandon p e) w3)
  sent-Submitted r w3 e n s h k on a = elim (Bool-cases (is_success e)) [
    | inl y ↦ rw y (r, n, h, k, s, ground arith)
    | inr x ↦ rw x (
        weaken (Restored p o w e) (Submitted p o w answer) (abandon p e w3)
          (abandon-Restored p o r w w3 e n s h k le pos)
          λ e' w4 (o', n4, h4, k4, s4, q). (o', n4, ground arith, ground arith, s4, ground arith))
  ]

  deliver-Submitted :
      (r : Operation) (w2 : World)
      → Now p r w w2
      → Same o r
      → r.response ≡ o.response
      → r.kref ≡ o.kref + 1
      → r.active ≡ o.active + 1
      → is_enabled w.state ≡ true
      → Returns (Submitted p o w answer) (deliver p is_response fill answer w2)
  unfolding deliver
  deliver-Submitted r w2 n s same h k on =
      bind _ (Submitted p o w answer) (fill w2) _ (fills w2 r n.inv n.at same)
        λ _ w3 (r3, n3, h3, k3, s3).
          bind (λ e w4. (e ≡ answer) × Now p r3 w3 w4) (Submitted p o w answer)
            (message_send p is_response answer w3) _
            (message_send-Now w3 n3.inv p r3 n3.at is_response answer)
            λ e w4 (a, n4).
              sent-Submitted r3 w4 e (Now-trans n (Now-trans n3 n4))
                (record {
                  id = s3.id ∙ s.id;
                  errno = s3.errno ∙ s.errno;
                  incoming = s3.incoming ∙ s.incoming;
                  callback = s3.callback ∙ s.callback;
                })
                (h3 ∙ h) (k3 ∙ k) on a

module _ (p : ℕ) (o : Operation) (is_response : Bool) (fill : M (Unit {0})) (answer : Errno)
    (fills : Fills p o fill) where
  pub submit-Submitted :
      (w : World)
      → Inv w
      → w.heap p ≡ some o
      → Returns (Submitted p o w answer) (submit p is_response fill answer w)
  unfolding submit
  submit-Submitted w v at =
      let s = v.sound p o at in
      let same : Same o o = record { id = refl; errno = refl; incoming = refl; callback = refl } in
      bind (λ _ w1. Now p (record o { kref = o.kref + 1 }) w w1) (Submitted p o w answer) (get p w)
        _ (get-Now w v p o at)
        λ _ w1 n1.
          bind _ (Submitted p o w answer) (get_active p w1) _
            (get_active-Now w1 n1.inv p (record o { kref = o.kref + 1 }) n1.at (omega arith))
            λ e w2 h. elim h [
              | inl (y, on, n2) ↦ rw y (
                  deliver-Submitted p o is_response fill answer fills w s.within s.held
                    (record o { kref = o.kref + 1; active = o.active + 1 }) w2 (Now-trans n1 n2)
                    (record { id = refl; errno = refl; incoming = refl; callback = refl }) refl refl
                    refl (ground arith))
              | inr (x, off, n2) ↦ rw x (
                  weaken (Restored p o w enotconn) (Submitted p o w answer)
                    ((put p >> pure enotconn) w2)
                    (drop_reference p o (record o { kref = o.kref + 1 }) w w2 enotconn
                      (Now-trans n1 n2)
                      (record { id = refl; errno = refl; incoming = refl; callback = refl }) refl
                      refl s.within s.held)
                    λ e' w4 (o', n4, h4, k4, s4, q).
                      (o', n4, ground arith, ground arith, s4, ground arith))
            ]
