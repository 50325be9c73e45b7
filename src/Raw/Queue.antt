-- ===== src/Raw/Queue.antt =====
-- Reading takes the messages in the order in which they were received.
use greybus.Base.{
  ℕ, ◌+◌, ◌-◌, ◌^◌, ◌≤◌, ◌<◌, ◌≡◌, refl, inl, inr, Bool, true, false, some, List, [], ◌∷◌, ◌++◌,
  ◌==◌, ltb, leb, not, ◌&&◌, if◌then◌else◌, length, arith, All, All-mono, Bool-cases, ◌∙◌, ap, sym,
  subst,
}
use greybus.Base.Monad.{Returns, weaken}
use greybus.Base.Bytes.{byte0, byte1, byte2, byte3, le32, le32-bytes}
use greybus.Errno.{Errno, is_success, efault, enospc}
use greybus.Raw.{
  type_send, max_packet_size, max_data_size, RawData, Raw, Count, failed, bytes, receive,
  send_request, send, write, read,
}
use greybus.Raw.Fifo.{IsValid, messages, receive-Received, Receipt, message_of, total, copy_lem}

abbrev pub is_taken : Count → Bool
is_taken (failed ret) = false
is_taken (bytes n) = not (n == 0)

-- Reading with room for `count` bytes: the first message and its length, if there is one, it fits and
-- the program can take it; the queue then holds the others, and otherwise the state is as before.
abbrev pub TakenFrom : List RawData → Raw → ℕ → Bool → Count → List ℕ → Raw → Type 0
TakenFrom [] raw count has_copied n got raw' = (n ≡ bytes 0) × (got ≡ []) × (raw' ≡ raw)
TakenFrom (e ∷ es) raw count has_copied n got raw' =
    if leb (length e.content) count && has_copied
    then (n ≡ bytes (length e.content)) × (got ≡ e.content) × (raw'.list ≡ es)
    else (n ≡ failed (if leb (length e.content) count then efault else enospc))
      × (got ≡ [])
      × (raw' ≡ raw)

abbrev pub Taken : Raw → ℕ → Bool → Count → List ℕ → Raw → Type 0
Taken raw = TakenFrom raw.list raw

read_nothing :
    (raw : Raw) (count : ℕ) (has_copied : Bool)
    → raw.list ≡ []
    → read raw count has_copied ≡ some (bytes 0, ([], raw))
unfolding read
read_nothing raw count has_copied e = ground arith

read_big :
    (raw : Raw) (count : ℕ) (has_copied : Bool) (e : RawData) (es : List RawData)
    → raw.list ≡ e ∷ es
    → ltb count e.len ≡ true
    → read raw count has_copied ≡ some (failed enospc, ([], raw))
unfolding read
read_big raw count has_copied e es there big = ground arith

read_first :
    (raw : Raw) (count : ℕ) (has_copied : Bool) (e : RawData) (es : List RawData)
    → raw.list ≡ e ∷ es
    → ltb count e.len ≡ false
    → e.len ≡ length e.content
    → read raw count has_copied ≡ (
        if not has_copied
        then some (failed efault, ([], raw))
        else some
            (bytes e.len, (e.content, record { list = es; list_data = raw.list_data - e.len })))
unfolding read
read_first raw count has_copied e es there fits same = ground (arith, copy_lem e.len e.content same)

rest-IsValid :
    (page_size : ℕ) (raw : Raw) (e : RawData) (es : List RawData)
    → raw.list ≡ e ∷ es
    → IsValid page_size raw
    → IsValid page_size (record { list = es; list_data = raw.list_data - e.len })
rest-IsValid page_size raw e es there v =
    let c : raw.list_data ≡ e.len + total es = v.count ∙ ap total there in
    record {
      count = omega (arith, c);
      bounded = omega (arith, v.bounded);
      lengths = (subst (All _) there v.lengths).1;
    }

-- Reading never faults, and leaves a valid queue.
pub read-Taken :
    (page_size : ℕ) (raw : Raw) (count : ℕ) (has_copied : Bool)
    → IsValid page_size raw
    → (n : Count) × (got : List ℕ) × (raw' : Raw) × (read raw count has_copied
        ≡ some (n, (got, raw')))
      × IsValid page_size raw'
      × Taken raw count has_copied n got raw'
read-Taken page_size raw count has_copied v = take_of raw.list refl
  where
    take_of :
        (es : List RawData)
        → raw.list ≡ es
        → (n : Count) × (got : List ℕ) × (raw' : Raw) × (read raw count has_copied
            ≡ some (n, (got, raw')))
          × IsValid page_size raw'
          × Taken raw count has_copied n got raw'
    take_of [] there = (bytes 0, [], raw, read_nothing raw count has_copied there, v, ground arith)
    take_of (e ∷ es) there =
        let (same, rest, fit) = (subst (All _) there v.lengths).0 in
        elim (Bool-cases (ltb count e.len)) [
          | inl big ↦ (
            failed enospc,
            [],
            raw,
            read_big raw count has_copied e es there big,
            v,
            let short : leb (length e.content) count ≡ false = ground arith in
                rw (there, short) (refl, refl, refl),
          )
          | inr fits ↦ elim (Bool-cases has_copied) [
            | inr n ↦ (
              failed efault,
              [],
              raw,
              ground (arith, read_first raw count has_copied e es there fits same),
              v,
              let room : leb (length e.content) count ≡ true = ground arith in
                  rw (there, room, n) (refl, refl, refl),
            )
            | inl y ↦ (
              bytes e.len,
              e.content,
              record { list = es; list_data = raw.list_data - e.len },
              ground (arith, read_first raw count has_copied e es there fits same),
              rest-IsValid page_size raw e es there v,
              let room : leb (length e.content) count ≡ true = ground arith in
                  rw (there, room, y) (ap bytes same, refl, refl),
            )
          ]
        ]

-- What the module sent and was accepted, and what programs read, since a state.
pub data Run (page_size : ℕ) (first : Raw) : List (List ℕ) → List (List ℕ) → Raw → Type 0 where
  start : Run page_size first [] [] first
  received :
      {sent got : List (List ℕ)} {raw raw' : Raw} (has_memory : Bool) (type : ℕ) (payload : List ℕ)
      (ret : Errno)
      → Run page_size first sent got raw
      → length payload < 2 ^ 32
      → receive page_size has_memory raw type payload ≡ some (ret, raw')
      → Run page_size first
          (if is_success ret then sent ++ message_of payload ∷ [] else sent)
          got
          raw'
  asked :
      {sent got : List (List ℕ)} {raw raw' : Raw} (count : ℕ) (has_copied : Bool) (n : Count)
      (message : List ℕ)
      → Run page_size first sent got raw
      → read raw count has_copied ≡ some (n, (message, raw'))
      → Run page_size first sent (if is_taken n then got ++ message ∷ [] else got) raw'

append_assoc : (xs ys zs : List (List ℕ)) → (xs ++ ys) ++ zs ≡ xs ++ (ys ++ zs)
append_assoc [] ys zs = refl
append_assoc (x ∷ xs) ys zs = ap (◌∷◌ x) (append_assoc xs ys zs)

abbrev pub empty : Raw
empty = record { list = []; list_data = 0 }

-- One read moves the first message from the queue to what was read.
abbrev Moved : ℕ → Raw → Count → List ℕ × Raw → Type 0
Moved page_size raw n (got, raw') =
    IsValid page_size raw'
    × (messages raw ≡ (if is_taken n then got ∷ messages raw' else messages raw'))

TakenFrom-moved :
    (es : List RawData) (raw raw' : Raw) (count : ℕ) (has_copied : Bool) (n : Count) (got : List ℕ)
    → raw.list ≡ es
    → All (λ (e : RawData). 0 < length e.content) es
    → TakenFrom es raw count has_copied n got raw'
    → messages raw ≡ (if is_taken n then got ∷ messages raw' else messages raw')
TakenFrom-moved [] raw raw' count has_copied n got there v (a, b, c) = rw (a, c) refl
TakenFrom-moved (e ∷ es) raw raw' count has_copied n got there v t =
    elim (Bool-cases (leb (length e.content) count && has_copied)) [
      | inl y ↦
          let (a, b, c) =
            subst
              (λ x.
                if x
                then (n ≡ bytes (length e.content)) × (got ≡ e.content) × (raw'.list ≡ es)
                else (n ≡ failed (if leb (length e.content) count then efault else enospc))
                  × (got ≡ [])
                  × (raw' ≡ raw))
              y t in
          let taken : is_taken n ≡ true = rw a (ground (arith, v.0)) in rw (taken, b, c, there) refl
      | inr f ↦
          let (a, b, c) =
            subst
              (λ x.
                if x
                then (n ≡ bytes (length e.content)) × (got ≡ e.content) × (raw'.list ≡ es)
                else (n ≡ failed (if leb (length e.content) count then efault else enospc))
                  × (got ≡ [])
                  × (raw' ≡ raw))
              f t in
          rw (a, c) refl
    ]

read_once :
    (page_size : ℕ) (raw : Raw) (count : ℕ) (has_copied : Bool)
    → IsValid page_size raw
    → Returns {S = List ℕ × Raw} {A = Count} (Moved page_size raw) (read raw count has_copied)
read_once page_size raw count has_copied v =
    let (n, got, left, same, v', t) = read-Taken page_size raw count has_copied v in
    rw same (
      v',
      TakenFrom-moved raw.list raw left count has_copied n got refl
          (All-mono _ (λ (e : RawData). 0 < length e.content) raw.list
            (λ e (same, positive, fit). subst (λ k. 0 < k) same positive) v.lengths)
          t,
    )

-- The messages that programs read, followed by those in the queue, are those that were accepted, in
-- the order of their arrival.
pub Run_fifo :
    (page_size : ℕ) (sent got : List (List ℕ)) (raw : Raw)
    → page_size ≤ 65536
    → Run page_size empty sent got raw
    → IsValid page_size raw × (sent ≡ got ++ messages raw)
Run_fifo page_size sent got raw small start =
    (record { count = refl; bounded = omega arith; lengths = tt }, refl)
Run_fifo page_size sent got raw small
      (received {sent = sent'} {got = got'} {raw = raw1} has_memory type payload ret r short e) =
    let (v, same) = Run_fifo page_size _ _ raw1 small r in
    let ((v', good, bad), s) =
      subst (Returns (Receipt page_size has_memory raw1 type payload)) e
        (receive-Received page_size small has_memory raw1 v type payload short) in
    (
      v',
      elim (Bool-cases (is_success ret)) [
        | inl y ↦ rw (y, good y, same) (append_assoc got' (messages raw1) (message_of payload ∷ []))
        | inr n ↦ rw (n, bad n) same
      ],
    )
Run_fifo page_size sent got raw small
      (asked {sent = sent'} {got = got'} {raw = raw1} count has_copied n message r e) =
    let (v, same) = Run_fifo page_size _ _ raw1 small r in
    let (v', moved) =
      subst (Returns {S = List ℕ × Raw} {A = Count} (Moved page_size raw1)) e
        (read_once page_size raw1 count has_copied v) in
    (
      v',
      elim (Bool-cases (is_taken n)) [
        | inl y ↦ rw y (
            same
            ∙ (ap (◌++◌ got') (moved ∙ rw y refl)
                ∙ sym (append_assoc got' (message ∷ []) (messages raw))))
        | inr f ↦ rw f (same ∙ ap (◌++◌ got') (moved ∙ rw f refl))
      ],
    )

-- What one side writes the other receives: with memory on both sides, a message that is not empty, at
-- most two pages long and has room in the receiver is its last one, and the write returns its length.
pub write-receive :
    (page_size : ℕ) (raw : Raw) (message : List ℕ)
    → page_size ≤ 65536
    → IsValid page_size raw
    → 0 < length message
    → length message ≤ max_packet_size page_size
    → total raw.list + length message ≤ max_data_size page_size
    → Returns
        (λ ret raw'.
          (messages raw' ≡ messages raw ++ message ∷ [])
          × (write page_size true (λ payload. ret) (length message) (some message)
              ≡ bytes (length message)))
        (receive page_size true raw type_send (send_request (length message) message))
unfolding write send
write-receive page_size raw message small v positive fits room =
    let back : le32 (byte0 (length message)) (byte1 (length message)) (byte2 (length message))
          (byte3 (length message))
        ≡ length message =
      le32-bytes (length message) (omega arith) in
    weaken (Receipt page_size true raw type_send (send_request (length message) message)) _
      (receive page_size true raw type_send (send_request (length message) message))
      (receive-Received page_size small true raw v type_send (send_request (length message) message)
        (omega arith))
      λ ret raw' ((v', good, bad), s).
        let t : is_success ret ≡ true = rw (s, back) (ground (arith, positive, fits, room)) in
        (good t, ground (arith, positive, fits, t))
