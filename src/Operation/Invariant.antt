-- ===== src/Operation/Invariant.antt =====
-- What holds of the operations in memory between any two calls.
use greybus.Base.{
  ℕ, ◌+◌, ◌≤◌, ◌<◌, ◌≡◌, refl, inl, inr, true, false, Option, none, some, List, [], ◌∷◌, ◌++◌,
  arith, ◌==◌, not, has, erase, Distinct, has-append, has-erase_ne, erase-Distinct, snoc-Distinct,
  Bool-cases, is_some, length, ==_iff, subst, ◌∙◌,
}
use greybus.Operation.Message.{Message, header_size}
use greybus.Operation.State.{Operation, World, update, with_op}

-- A buffer holds the header and the payload.
abbrev pub IsSized : Message → Type 0
IsSized m = length m.buffer ≡ header_size + m.payload_size

abbrev pub IsSizedOption : Option Message → Type 0
IsSizedOption none = Unit {0}
IsSizedOption (some m) = IsSized m

-- An operation in memory: it is on the connection's list exactly while it is active; it has a
-- reference, and one for each time it is active; its buffers hold its messages; an outgoing
-- operation has a response buffer.
pub record IsSound (operations : List ℕ) (p : ℕ) (o : Operation) : Type 0 where
  pub listed : has p operations ≡ not (o.active == 0)
  pub within : o.active ≤ o.kref
  pub held : 0 < o.kref
  pub request_sized : IsSized o.request
  pub response_sized : IsSizedOption o.response
  pub outgoing : o.incoming ≡ false → is_some o.response ≡ true

pub record Inv (w : World) : Type 0 where
  pub distinct : Distinct w.operations
  pub live : (p : ℕ) → has p w.operations ≡ true → is_some (w.heap p) ≡ true
  pub fresh : (p : ℕ) → w.next ≤ p → w.heap p ≡ none
  pub sound : (p : ℕ) (o : Operation) → w.heap p ≡ some o → IsSound w.operations p o

IsSound-eq :
    (l : List ℕ) {p q : ℕ} {o r : Operation} → p ≡ q → o ≡ r → IsSound l p o → IsSound l q r
IsSound-eq l {p} {q} {o} {r} e f s = subst (λ k. IsSound l k r) e (subst (IsSound l p) f s)

-- On another list that has the operation as the first has.
IsSound-list :
    (l l' : List ℕ) (p : ℕ) (o : Operation) → has p l' ≡ has p l → IsSound l p o → IsSound l' p o
IsSound-list l l' p o e s = record {
  listed = e ∙ s.listed;
  within = s.within;
  held = s.held;
  request_sized = s.request_sized;
  response_sized = s.response_sized;
  outgoing = s.outgoing;
}

module _ (w : World) (v : Inv w) (p : ℕ) where
  -- An operation is replaced, and the list changes at most for this operation.
  pub Inv-replace :
      (o o' : Operation) (l : List ℕ)
      → w.heap p ≡ some o
      → Distinct l
      → ((q : ℕ) → (p == q) ≡ false → has q l ≡ has q w.operations)
      → IsSound l p o'
      → Inv (record w { heap = update w.heap p (some o'); operations = l })
  Inv-replace o o' l at d same s = record {
    distinct = d;
    live = λ q h. elim (Bool-cases (p == q)) [
      | inl e ↦ ground arith
      | inr n ↦ ground (arith, v.live q, same q n)
    ];
    fresh = λ q h. ground (arith, v.fresh q h);
    sound = λ q r h. elim (Bool-cases (p == q)) [
      | inl e ↦ IsSound-eq l ((==_iff p q).0 e) (ground arith) s
      | inr n ↦ IsSound-list w.operations l q r (same q n) (v.sound q r (ground arith))
    ];
  }

  pub Inv-with_op :
      (o o' : Operation) → w.heap p ≡ some o → IsSound w.operations p o' → Inv (with_op w p o')
  Inv-with_op o o' at s = Inv-replace o o' w.operations at v.distinct (λ q n. refl) s

  -- The last reference goes.
  pub Inv-free :
      (o : Operation)
      → w.heap p ≡ some o
      → o.active ≡ 0
      → Inv (record w { heap = update w.heap p none })
  Inv-free o at idle =
      let out : has p w.operations ≡ false = ground (arith, (v.sound p o at).listed) in
      record {
        distinct = v.distinct;
        live = λ q h. elim (Bool-cases (p == q)) [
          | inl e ↦ let same = (==_iff p q).0 e in ground arith
          | inr n ↦ ground (arith, v.live q)
        ];
        fresh = λ q h. ground (arith, v.fresh q h);
        sound = λ q r h. elim (Bool-cases (p == q)) [
          | inl e ↦ ground arith
          | inr n ↦ v.sound q r (ground arith)
        ];
      }

  -- An idle operation goes on the list, and an active one off it.
  enter_same : (q : ℕ) → (p == q) ≡ false → has q (w.operations ++ p ∷ []) ≡ has q w.operations
  enter_same q n = ground (arith, has-append q w.operations (p ∷ []))

  pub Inv-enter :
      (o o' : Operation)
      → w.heap p ≡ some o
      → o.active ≡ 0
      → IsSound (w.operations ++ p ∷ []) p o'
      → Inv (record w { heap = update w.heap p (some o'); operations = w.operations ++ p ∷ [] })
  Inv-enter o o' at idle s =
      let out : has p w.operations ≡ false = ground (arith, (v.sound p o at).listed) in
      Inv-replace o o' (w.operations ++ p ∷ []) at (snoc-Distinct p w.operations v.distinct out)
        enter_same s

  pub Inv-leave :
      (o o' : Operation)
      → w.heap p ≡ some o
      → IsSound (erase p w.operations) p o'
      → Inv (record w { heap = update w.heap p (some o'); operations = erase p w.operations })
  Inv-leave o o' at s =
      Inv-replace o o' (erase p w.operations) at (erase-Distinct p w.operations v.distinct)
        (λ q n. has-erase_ne p q w.operations (ground arith)) s

-- A new operation, with one reference, off the list.
pub Inv-publish :
    (w : World) (o : Operation)
    → Inv w
    → ((l : List ℕ) (p : ℕ) → has p l ≡ false → IsSound l p o)
    → Inv (record w { heap = update w.heap w.next (some o); next = w.next + 1 })
Inv-publish w o v s =
    let out : has w.next w.operations ≡ false =
      ground (arith, v.live w.next, v.fresh w.next (omega arith)) in
    record {
      distinct = v.distinct;
      live = λ q h. ground (arith, v.live q h);
      fresh = λ q h. ground (arith, v.fresh q);
      sound = λ q r h. elim (Bool-cases (w.next == q)) [
        | inl e ↦
            IsSound-eq w.operations ((==_iff w.next q).0 e) (ground arith)
              (s w.operations w.next out)
        | inr n ↦ v.sound q r (ground arith)
      ];
    }
