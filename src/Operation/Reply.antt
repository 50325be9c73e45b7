-- ===== src/Operation/Reply.antt =====
-- The response half of gb_connection_recv, and the whole of it.
use greybus.Base.{
  ℕ, ◌+◌, ◌^◌, ◌≤◌, ◌<◌, ◌≡◌, refl, ◌⊎◌, inl, inr, true, false, Option, none, some, List, [], ◌∷◌,
  arith, ◌==◌, length, Bool-cases, Option-cases, not, ltb, is_some, has, sym, subst, ◌&&◌, ◌++◌,
  All, ap, ◌∙◌, Bool,
}
use greybus.Operation.Message.{Message, Header, header_size, read_header}
use greybus.Operation.State.{
  Operation, World, is_enabled, get, find_outgoing, search, load, get_found,
}
use greybus.Operation.Send.{Memory}
use greybus.Operation.Recv.{
  response_errno, complete_response, take_response, recv_response, is_response, dispatch, recv,
}
use greybus.Operation.Invariant.{Inv}
use greybus.Operation.Effects.{Returns, bind, weaken, Now, Now-trans, load-Now, get-Now}
use greybus.Operation.Receive.{recv_request-Inv}
use greybus.Operation.Complete.{Completed, complete_response-Completed}

-- Whether an operation in memory is outgoing and has an id: a response with that id is its own.
abbrev pub awaits : ℕ → Option Operation → Bool
awaits id none = false
awaits id (some o) = o.id == id && not o.incoming

-- No operation of a list awaits a response with an id.
abbrev pub NoneAwaits : (ℕ → Option Operation) → ℕ → List ℕ → Type 0
NoneAwaits heap id ps = All (λ p. awaits id (heap p) ≡ false) ps

-- An operation awaits the response, and none that stands before it in a list does.
pub record IsFirst (heap : ℕ → Option Operation) (id : ℕ) (ps : List ℕ) (p : ℕ) (o : Operation)
    : Type 0 where
  pub before : List ℕ
  pub after : List ℕ
  pub listed : ps ≡ before ++ p ∷ after
  pub first : NoneAwaits heap id before
  pub at : heap p ≡ some o
  pub same : o.id ≡ id
  pub out : o.incoming ≡ false

-- What a search of the list of active operations ends with.
abbrev Found : (ℕ → Option Operation) → List ℕ → ℕ → Option (Option ℕ) → Type 0
Found heap ps id none = ⊥
Found heap ps id (some none) = NoneAwaits heap id ps
Found heap ps id (some (some p)) = (o : Operation) × IsFirst heap id ps p o

search-Found :
    (heap : ℕ → Option Operation) (ps : List ℕ) (id : ℕ)
    → ((p : ℕ) → has p ps ≡ true → is_some (heap p) ≡ true)
    → Found heap ps id (search ps heap id)
unfolding search
search-Found heap [] id live = tt
search-Found heap (p ∷ ps) id live = elim (Option-cases (heap p)) [
  | inl e ↦ absurd (ground (arith, live p))
  | inr (o, e) ↦ elim (Bool-cases (o.id == id && not o.incoming)) [
    | inl y ↦
        rw (e, search, y)
          (
            o,
            record {
              before = [];
              after = ps;
              listed = refl;
              first = tt;
              at = e;
              same = ground arith;
              out = ground arith;
            },
          )
    | inr n ↦
        rw (e, search, n)
          (widen (ap (awaits id) e ∙ n) (search ps heap id)
            (search-Found heap ps id (λ q h. live q (ground arith))))
  ]
]
  where
    widen :
        awaits id (heap p) ≡ false
        → (r : Option (Option ℕ)) → Found heap ps id r
        → Found heap (p ∷ ps) id r
    widen n none f = f
    widen n (some none) f = (n, f)
    widen n (some (some q)) (o, f) = (
      o,
      record {
        before = p ∷ f.before;
        after = f.after;
        listed = ap (◌∷◌ p) f.listed;
        first = (n, f.first);
        at = f.at;
        same = f.same;
        out = f.out;
      },
    )

pub read_header-lt : (xs : List ℕ) {h : Header} → read_header xs ≡ some h → header_size ≤ length xs
unfolding read_header
read_header-lt [] e = ground arith
read_header-lt (a ∷ []) e = ground arith
read_header-lt (a ∷ b ∷ []) e = ground arith
read_header-lt (a ∷ b ∷ c ∷ []) e = ground arith
read_header-lt (a ∷ b ∷ c ∷ d ∷ []) e = ground arith
read_header-lt (a ∷ b ∷ c ∷ d ∷ t ∷ []) e = ground arith
read_header-lt (a ∷ b ∷ c ∷ d ∷ t ∷ r ∷ []) e = ground arith
read_header-lt (a ∷ b ∷ c ∷ d ∷ t ∷ r ∷ x ∷ []) e = ground arith
read_header-lt (a ∷ b ∷ c ∷ d ∷ t ∷ r ∷ x ∷ y ∷ xs) e = omega arith

unreadable : (xs : List ℕ) → read_header xs ≡ none → header_size ≤ length xs → ⊥
unfolding read_header
unreadable [] e h = absurd (omega arith)
unreadable (a ∷ []) e h = absurd (omega arith)
unreadable (a ∷ b ∷ []) e h = absurd (omega arith)
unreadable (a ∷ b ∷ c ∷ []) e h = absurd (omega arith)
unreadable (a ∷ b ∷ c ∷ d ∷ []) e h = absurd (omega arith)
unreadable (a ∷ b ∷ c ∷ d ∷ t ∷ []) e h = absurd (omega arith)
unreadable (a ∷ b ∷ c ∷ d ∷ t ∷ r ∷ []) e h = absurd (omega arith)
unreadable (a ∷ b ∷ c ∷ d ∷ t ∷ r ∷ x ∷ []) e h = absurd (omega arith)
unreadable (a ∷ b ∷ c ∷ d ∷ t ∷ r ∷ x ∷ y ∷ xs) e h = cc

-- A response reaches the first active outgoing operation with its id, and no other: unless that
-- operation has its result already, it gets the status of the response, or -EMSGSIZE when a
-- successful one has another size than the operation expects. Without such an operation nothing
-- changes.
abbrev pub Received : ℕ → ℕ → ℕ → World → World → Type 0
Received id result size w w' =
    (NoneAwaits w.heap id w.operations × (w' ≡ w))
    ⊎ ((p : ℕ) × (o : Operation) × (m : Message) × IsFirst w.heap id w.operations p o
        × (o.response ≡ some m)
        × Completed p (response_errno result size m) o w w')

abbrev Taken : ℕ → World → Option ℕ → World → Type 0
Taken id w none w1 = NoneAwaits w.heap id w.operations × (w1 ≡ w)
Taken id w (some p) w1 =
    (o : Operation) × IsFirst w.heap id w.operations p o
    × Now p (record o { kref = o.kref + 1 }) w w1

find_outgoing-Taken : (id : ℕ) (w : World) → Inv w → Returns (Taken id w) (find_outgoing id w)
unfolding find_outgoing
find_outgoing-Taken id w v =
    go (search w.operations w.heap id) (search-Found w.heap w.operations id v.live)
  where
    go :
        (r : Option (Option ℕ))
        → Found w.heap w.operations id r
        → Returns (Taken id w) (elim r [ none ↦ none | some found ↦ get_found found w ])
    go none f = elim f [ ]
    go (some none) f = (f, refl)
    go (some (some p)) (o, f) =
        bind _ (Taken id w) (get p w) _ (get-Now w v p o f.at) λ _ w1 n. (o, f, n)

-- A response of any size, whose bytes and header are there, does not fault. Either no active outgoing
-- operation has its id and nothing changes, or the first in the list that has it, with none before it,
-- takes the result of the response if it has none yet; its counts are as before, the invariant is kept, and no other
-- operation changes.
pub recv_response-Received :
    (id result : ℕ) (bytes : List ℕ) (size : ℕ) (w : World)
    → Inv w
    → size ≤ length bytes
    → header_size ≤ length bytes
    → Returns (λ _ w'. Received id result size w w') (recv_response id result bytes size w)
unfolding recv_response
recv_response-Received id result bytes size w v h k =
    bind (Taken id w) post (find_outgoing id w) _ (find_outgoing-Taken id w v) go
  where
    post : Unit {0} → World → Type 0
    post u w' = Received id result size w w'

    go :
        (r : Option ℕ) (w1 : World)
        → Taken id w r w1
        → Returns post (take_response result bytes size r w1)
    go none w1 (q, same) = inl (q, same)
    go (some p) w1 (o, f, n) =
        let s = v.sound p o f.at in
        let (m, res) = response_of o.response refl (s.outgoing f.out) in
        let taken : Operation = record o { kref = o.kref + 1 } in
        bind (λ r w2. (r ≡ taken) × Now p taken w1 w2) post (load p w1) _
          (load-Now w1 n.inv p taken n.at)
          λ r w2 (same, n2).
            weaken _ post (complete_response p result bytes size r w2)
              (complete_response-Completed p result size bytes m h k o r w w2
                (subst (λ x. Now p x w w2) (sym same) (Now-trans n n2)) v f.at same res)
              λ _ w3 c. inr (p, o, m, f, res, c)
      where
        response_of :
            (r : Option Message)
            → o.response ≡ r
            → is_some r ≡ true
            → (m : Message) × (o.response ≡ some m)
        response_of none eq h = ground arith
        response_of (some m) eq h = (m, eq)

-- From a connection that satisfies the invariant, received data of less than 2^64 bytes never faults
-- and keeps the invariant, if a request whose header is complete says that it is at least as long as
-- its header.
pub recv-Inv :
    (mem : Memory) (bytes : List ℕ) (w : World)
    → Inv w
    → length bytes < 2 ^ 64
    → ((h : Header)
        → read_header bytes ≡ some h
        → is_response h.type ≡ false
        → header_size ≤ h.size)
    → Returns (λ _ w'. Inv w') (recv mem bytes w)
unfolding recv
recv-Inv mem bytes w v l long = elim (Bool-cases (not (is_enabled w.state))) [
  | inl off ↦ rw (recv, off) v
  | inr on ↦ elim (Bool-cases (ltb (length bytes) header_size)) [
    | inl short ↦ rw (recv, on, short) v
    | inr enough ↦ read (read_header bytes) refl on enough
  ]
]
  where
    respond :
        (h : Header)
        → h.size ≤ length bytes
        → header_size ≤ length bytes
        → Returns (λ _ w'. Inv w') (recv_response h.operation_id h.result bytes h.size w)
    respond h fits enough =
        weaken _ _ (recv_response h.operation_id h.result bytes h.size w)
          (recv_response-Received h.operation_id h.result bytes h.size w v fits enough)
          λ _ w' r. elim r [
            | inl (q, same) ↦ subst Inv (sym same) v
            | inr (p, o, m, f, res, c) ↦ (c.1).inv
          ]

    handle :
        (h : Header)
        → read_header bytes ≡ some h
        → header_size ≤ length bytes
        → Returns (λ _ w'. Inv w') (dispatch mem bytes h w)
    handle h e enough = elim (Bool-cases (ltb (length bytes) h.size)) [
      | inl cut ↦ rw cut v
      | inr whole ↦ elim (Bool-cases (is_response h.type)) [
        | inl y ↦ rw (whole, y) (respond h (ground arith) enough)
        | inr n ↦
            rw (whole, n)
              (recv_request-Inv mem h.operation_id h.type bytes h.size w v (long h e n)
                (ground arith) l)
      ]
    ]

    read :
        (r : Option Header)
        → read_header bytes ≡ r
        → not (is_enabled w.state) ≡ false
        → ltb (length bytes) header_size ≡ false
        → Returns (λ _ w'. Inv w') (recv mem bytes w)
    read none e on enough = rw (recv, on, enough, e) (absurd (unreadable bytes e (ground arith)))
    read (some h) e on enough = rw (recv, on, enough, e) (handle h e (ground arith))
