-- ===== src/Raw/Fifo.antt =====
-- The received messages are a queue with room for sixteen pages.
use greybus.Base.{
  ℕ, ◌+◌, ◌%◌, ◌^◌, ◌≤◌, ◌<◌, ◌≡◌, refl, inl, inr, ◌&&◌, leb, Bool, true, false, Option, some, List,
  [], ◌∷◌, ◌++◌, ◌==◌, ltb, not, length, take_all, arith, All, All-append, Bool-cases, ap, map,
}
use greybus.Base.Monad.{Returns, weaken}
use greybus.Base.Bytes.{le32}
use greybus.Errno.{Errno, success, einval, enomem, is_success}
use greybus.Raw.{
  type_send, max_packet_size, max_data_size, RawData, Raw, copy, keep_data, receive_data, receive,
}

abbrev pub total : List RawData → ℕ
total [] = 0
total (e ∷ es) = e.len + total es

-- The count is that of the bytes kept, which is bounded, and each length is that of its bytes.
pub record IsValid (page_size : ℕ) (raw : Raw) : Type 0 where
  pub count : raw.list_data ≡ total raw.list
  pub bounded : raw.list_data ≤ max_data_size page_size
  pub lengths :
      All
        (λ (e : RawData).
          (e.len ≡ length e.content) × (0 < e.len) × (e.len ≤ max_packet_size page_size))
        raw.list

-- What is abstracted from the state: the messages, in order.
abbrev pub messages : Raw → List (List ℕ)
messages raw = map (λ (e : RawData). e.content) raw.list

total-append : (es : List RawData) (e : RawData) → total (es ++ e ∷ []) ≡ total es + e.len
total-append [] e = omega arith
total-append (d ∷ es) e = omega (arith, total-append es e)

map-append :
    (es : List RawData) (e : RawData)
    → map (λ (e : RawData). e.content) (es ++ e ∷ [])
      ≡ map (λ (e : RawData). e.content) es ++ e.content ∷ []
map-append [] e = refl
map-append (d ∷ es) e = ap (◌∷◌ d.content) (map-append es e)

pub copy_lem : (n : ℕ) (xs : List ℕ) → n ≡ length xs → copy n xs ≡ some xs
unfolding copy
copy_lem n xs e = ground (arith, take_all n xs e)

keep_data_refused :
    (raw : Raw) (n : ℕ) (xs : List ℕ) → keep_data false raw n xs ≡ some (enomem, raw)
unfolding keep_data
keep_data_refused raw n xs = refl

keep_data_stored :
    (raw : Raw) (xs : List ℕ)
    → keep_data true raw (length xs) xs
      ≡ some (
        success,
        record {
          list = raw.list ++ record { len = length xs; content = xs } ∷ [];
          list_data = (raw.list_data + length xs) % 2 ^ 32;
        },
      )
unfolding keep_data
keep_data_stored raw xs = rw (copy_lem (length xs) xs refl) refl

-- What a receiver leaves: the message is the last of the queue if it was accepted, and the queue is
-- as before if not.
abbrev pub Received : ℕ → Raw → List ℕ → Errno → Raw → Type 0
Received page_size raw message ret raw' =
    IsValid page_size raw'
    × ((is_success ret ≡ true) → messages raw' ≡ messages raw ++ message ∷ [])
    × ((is_success ret ≡ false) → raw' ≡ raw)

-- The length that a request claims, and what follows it.
abbrev pub claimed : List ℕ → ℕ
claimed (a ∷ b ∷ c ∷ d ∷ message) = le32 a b c d
claimed short = 0

abbrev pub message_of : List ℕ → List ℕ
message_of (a ∷ b ∷ c ∷ d ∷ message) = message
message_of short = []

-- There is room for a message, and memory.
abbrev pub accepts : ℕ → Bool → Raw → ℕ → Bool
accepts page_size has_memory raw n =
    leb n (max_packet_size page_size)
    && leb (total raw.list + n) (max_data_size page_size)
    && has_memory

abbrev pub Receipt : ℕ → Bool → Raw → ℕ → List ℕ → Errno → Raw → Type 0
Receipt page_size has_memory raw type payload ret raw' =
    Received page_size raw (message_of payload) ret raw'
    × (is_success ret ≡ (
        (type == type_send)
        && (claimed payload == length (message_of payload))
        && not (claimed payload == 0)
        && accepts page_size has_memory raw (length (message_of payload))))

module _ (page_size : ℕ) (small : page_size ≤ 65536) (has_memory : Bool) (raw : Raw)
    (v : IsValid page_size raw) where
  no_wrap :
      (n : ℕ) → n ≤ max_packet_size page_size → (raw.list_data + n) % 2 ^ 32 ≡ raw.list_data + n
  no_wrap n h = omega (arith, v.bounded, h, small)

  added-IsValid :
      (message : List ℕ)
      → 0 < length message
      → length message ≤ max_packet_size page_size
      → raw.list_data + length message ≤ max_data_size page_size
      → IsValid page_size (record {
        list = raw.list ++ record { len = length message; content = message } ∷ [];
        list_data = (raw.list_data + length message) % 2 ^ 32;
      })
  added-IsValid message positive fits room = rw (no_wrap (length message) fits) (record {
    count = omega (
      arith,
      v.count,
      total-append raw.list (record { len = length message; content = message }),
    );
    bounded = room;
    lengths = All-append _ raw.list _ v.lengths ((refl, positive, fits), tt);
  })

  receive_data_lem :
      (message : List ℕ)
      → 0 < length message
      → Returns
          (λ ret raw'.
            Received page_size raw message ret raw'
            × (is_success ret ≡ accepts page_size has_memory raw (length message)))
          (receive_data page_size has_memory raw (length message) message)
  unfolding receive_data
  receive_data_lem message positive =
      elim (Bool-cases (ltb (max_packet_size page_size) (length message))) [
        | inl big ↦ rw big ((v, λ y. ground arith, λ n. refl), ground arith)
        | inr fits ↦
            rw (fits, no_wrap (length message) (ground arith))
              (elim (Bool-cases (ltb (max_data_size page_size) (raw.list_data + length message))) [
                | inl full ↦ rw full ((v, λ y. ground arith, λ n. refl), ground (arith, v.count))
                | inr room ↦ rw room (elim (Bool-cases has_memory) [
                  | inr n ↦
                      rw (n, keep_data_refused raw (length message) message)
                        ((v, λ y. ground arith, λ n. refl), ground arith)
                  | inl y ↦
                      rw (y, keep_data_stored raw message)
                        (
                          (
                            added-IsValid message positive (ground arith) (ground arith),
                            λ y.
                                map-append raw.list
                                  (record { len = length message; content = message }),
                            λ n. ground arith,
                          ),
                          ground (arith, v.count),
                        )
                ])
              ])
      ]

  rejected :
      (type : ℕ) (message : List ℕ) {b : Bool} (r : Option (Errno × Raw))
      → r ≡ some (einval, raw)
      → b ≡ false
      → Returns (λ ret raw'. Received page_size raw message ret raw' × (is_success ret ≡ b)) r
  rejected type message r e f = rw (e, f) ((v, λ y. ground arith, λ n. refl), refl)

  receive_other :
      (type : ℕ) (payload : List ℕ)
      → (type == type_send) ≡ false
      → receive page_size has_memory raw type payload ≡ some (einval, raw)
  unfolding receive
  receive_other type payload n = rw n refl

  receive_wrong :
      (type a b c d : ℕ) (message : List ℕ)
      → length message < 2 ^ 32
      → (le32 a b c d == length message) ≡ false
      → receive page_size has_memory raw type (a ∷ b ∷ c ∷ d ∷ message) ≡ some (einval, raw)
  unfolding receive
  receive_wrong type a b c d message short n = ground arith

  receive_empty :
      (type a b c d : ℕ) (message : List ℕ)
      → (le32 a b c d == 0) ≡ true
      → receive page_size has_memory raw type (a ∷ b ∷ c ∷ d ∷ message) ≡ some (einval, raw)
  unfolding receive
  receive_empty type a b c d message z = ground arith

  receive_data_of :
      (type a b c d : ℕ) (message : List ℕ)
      → (type == type_send) ≡ true
      → length message < 2 ^ 32
      → le32 a b c d ≡ length message
      → 0 < length message
      → receive page_size has_memory raw type (a ∷ b ∷ c ∷ d ∷ message)
        ≡ receive_data page_size has_memory raw (length message) message
  unfolding receive
  receive_data_of type a b c d message y short e positive = ground arith

  -- For pages of at most 65536 bytes, receiving a request of less than 2^32 bytes in a valid state
  -- never faults and leaves a valid queue. It succeeds exactly for a send request
  -- that is not empty, claims the length of what follows, is at most two pages long and fits into
  -- sixteen pages with what is kept, if there is memory; the message is then the last of the queue,
  -- and otherwise the state is as before.
  pub receive-Received :
      (type : ℕ) (payload : List ℕ)
      → length payload < 2 ^ 32
      → Returns
          (Receipt page_size has_memory raw type payload)
          (receive page_size has_memory raw type payload)
  unfolding receive
  receive-Received type [] short =
      rejected type [] _
        (elim (Bool-cases (type == type_send)) [ inl y ↦ rw y refl | inr n ↦ rw n refl ])
        (ground arith)
  receive-Received type (a ∷ []) short =
      rejected type [] _
        (elim (Bool-cases (type == type_send)) [ inl y ↦ rw y refl | inr n ↦ rw n refl ])
        (ground arith)
  receive-Received type (a ∷ b ∷ []) short =
      rejected type [] _
        (elim (Bool-cases (type == type_send)) [ inl y ↦ rw y refl | inr n ↦ rw n refl ])
        (ground arith)
  receive-Received type (a ∷ b ∷ c ∷ []) short =
      rejected type [] _
        (elim (Bool-cases (type == type_send)) [ inl y ↦ rw y refl | inr n ↦ rw n refl ])
        (ground arith)
  receive-Received type (a ∷ b ∷ c ∷ d ∷ message) short = elim (Bool-cases (type == type_send)) [
    | inr n ↦
        rejected type message _ (receive_other type (a ∷ b ∷ c ∷ d ∷ message) n) (ground arith)
    | inl y ↦ elim (Bool-cases (le32 a b c d == length message)) [
      | inr n ↦
          rejected type message _ (receive_wrong type a b c d message (ground arith) n)
            (ground arith)
      | inl e ↦ elim (Bool-cases (le32 a b c d == 0)) [
        | inl z ↦ rejected type message _ (receive_empty type a b c d message z) (ground arith)
        | inr p ↦
            rw (receive_data_of type a b c d message y (ground arith) (ground arith) (ground arith))
              (weaken _ _ (receive_data page_size has_memory raw (length message) message)
                (receive_data_lem message (ground arith)) λ ret raw' (r, s). (r, ground arith))
      ]
    ]
  ]
