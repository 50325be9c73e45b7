-- ===== src/I2c/Layout.antt =====
-- The layout of a transfer: what goes out fits the request, and what comes in goes where it belongs.
use greybus.Base.{
  ℕ, append_nil, ◌*◌, ◌^◌, ◌≤◌, ◌<◌, ◌≡◌, refl, inl, inr, true, false, some, List, [], ◌∷◌, ◌++◌,
  ltb, if◌then◌else◌, length, take, drop, take_all, drop_all, arith, All, Bool-cases, ◌∙◌, ap, sym,
  length-append, take-append, drop-append,
}
use greybus.Errno.{success}
use greybus.Operation.Message.{low, high}
use greybus.I2c.{
  I2cMsg, u16_max, is_read, data_in_size, data_out_size, request_size, fill_transfer_op, fill_ops,
  copy_out, created, operation_create, decode_response, count, transfer_operation,
}

-- A message as the kernel passes it on: its buffer has its length, which is a `u16`.
abbrev pub IsWhole : I2cMsg → Type 0
IsWhole m = (m.len ≡ length m.buf) × (m.len ≤ u16_max)

-- The data of the messages that are read, and of those that are written.
abbrev pub incoming : List I2cMsg → List ℕ
incoming [] = []
incoming (m ∷ ms) = if is_read m then m.buf ++ incoming ms else incoming ms

abbrev pub outgoing : List I2cMsg → List ℕ
outgoing [] = []
outgoing (m ∷ ms) = if is_read m then outgoing ms else m.buf ++ outgoing ms

copy_out_lem : (ms : List I2cMsg) → All IsWhole ms → copy_out ms ≡ some (outgoing ms)
unfolding copy_out
copy_out_lem [] a = refl
copy_out_lem (m ∷ ms) ((e, s), a) =
    rw (copy_out_lem ms a, copy_out)
      (elim (Bool-cases (is_read m)) [
        | inl y ↦ rw y refl
        | inr n ↦ rw n (ground (arith, take_all m.len m.buf e))
      ])

data_in_size_lem :
    (ms : List I2cMsg)
    → All IsWhole ms
    → length ms ≤ u16_max
    → (data_in_size ms ≡ length (incoming ms)) × (data_in_size ms ≤ length ms * u16_max)
unfolding data_in_size
data_in_size_lem [] a b = (refl, omega arith)
data_in_size_lem (m ∷ ms) ((e, s), a) b =
    let (x, y) = data_in_size_lem ms a (omega (arith, b)) in
    elim (Bool-cases (is_read m)) [
      | inl r ↦
          rw (r, length-append m.buf (incoming ms))
            (omega (arith, e, s, x, y, b), omega (arith, e, s, x, y, b))
      | inr n ↦ rw n (x, omega (arith, y))
    ]

data_out_size_lem :
    (ms : List I2cMsg)
    → All IsWhole ms
    → length ms ≤ u16_max
    → (data_out_size ms ≡ length (outgoing ms)) × (data_out_size ms ≤ length ms * u16_max)
unfolding data_out_size
data_out_size_lem [] a b = (refl, omega arith)
data_out_size_lem (m ∷ ms) ((e, s), a) b =
    let (x, y) = data_out_size_lem ms a (omega (arith, b)) in
    elim (Bool-cases (is_read m)) [
      | inl r ↦ rw r (x, omega (arith, y))
      | inr n ↦
          rw (n, length-append m.buf (outgoing ms))
            (omega (arith, e, s, x, y, b), omega (arith, e, s, x, y, b))
    ]

length-fill_ops : (ms : List I2cMsg) → length (fill_ops ms) ≡ length ms * 6
unfolding fill_ops fill_transfer_op
length-fill_ops [] = refl
length-fill_ops (m ∷ ms) = omega (arith, length-fill_ops ms)

abbrev pub request_payload : List I2cMsg → List ℕ
request_payload ms = low (length ms) ∷ high (length ms) ∷ (fill_ops ms ++ outgoing ms)

length-request_payload :
    (ms : List I2cMsg)
    → All IsWhole ms
    → length ms ≤ u16_max
    → length (request_payload ms) ≡ request_size ms
length-request_payload ms a b =
    let (x, y) = data_out_size_lem ms a b in
    omega (arith, x, length-fill_ops ms, length-append (fill_ops ms) (outgoing ms))

-- The request of a transfer of at most 65535 messages, each with a buffer of its length of at most
-- 65535 bytes, is created without a fault: the count, the descriptions and the data to be written fill
-- the payload exactly, and the response has room for the data to be read.
pub operation_create_lem :
    (ms : List I2cMsg)
    → All IsWhole ms
    → length ms ≤ u16_max
    → (operation_create true ms ≡ some (created (request_payload ms) (length (incoming ms))))
      × (length (request_payload ms) ≡ request_size ms)
      × (length (incoming ms) < 2 ^ 32)
unfolding operation_create
operation_create_lem ms a b =
    let (x, y) = data_in_size_lem ms a b in
    let fit = length-request_payload ms a b in
    let few : ltb u16_max (length ms) ≡ false = ground (arith, b) in
    let within : ltb (request_size ms) (length (request_payload ms)) ≡ false =
      ground (arith, fit) in
    (
      rw (few, copy_out_lem ms a, operation_create)
          (rw (within) (ap (λ n. some (created (request_payload ms) n)) x)),
      fit,
      omega (arith, x, y, b),
    )

-- The messages after a transfer: those that are read have new data of their lengths.
abbrev pub Answers : List I2cMsg → List I2cMsg → Type 0
Answers [] [] = Unit
Answers [] (n ∷ ns) = ⊥
Answers (m ∷ ms) [] = ⊥
Answers (m ∷ ms) (n ∷ ns) =
    ((x : List ℕ) × (n ≡ record m { buf = x })
      × (m.len ≡ length x)
      × (is_read m ≡ false → x ≡ m.buf))
    × Answers ms ns

decode_read :
    (m : I2cMsg) (ms rest : List I2cMsg) (response : List ℕ)
    → is_read m ≡ true
    → m.len ≤ length response
    → m.len ≤ length m.buf
    → decode_response ms (drop m.len response) ≡ some rest
    → decode_response (m ∷ ms) response
      ≡ some (record m { buf = take m.len response ++ drop m.len m.buf } ∷ rest)
unfolding decode_response
decode_read m ms rest response r a b e = ground (arith, e)

decode_write :
    (m : I2cMsg) (ms rest : List I2cMsg) (response : List ℕ)
    → is_read m ≡ false
    → decode_response ms response ≡ some rest
    → decode_response (m ∷ ms) response ≡ some (m ∷ rest)
unfolding decode_response
decode_write m ms rest response r e = ground (arith, e)

decode_response-incoming :
    (ms ns : List I2cMsg)
    → All IsWhole ms
    → Answers ms ns
    → decode_response ms (incoming ns) ≡ some ns
unfolding decode_response
decode_response-incoming [] [] w a = refl
decode_response-incoming [] (n ∷ ns) w a = absurd a
decode_response-incoming (m ∷ ms) [] w a = absurd a
decode_response-incoming (m ∷ ms) (n ∷ ns) ((e, s), w) ((x, same, l, kept), a) =
    let rest = decode_response-incoming ms ns w a in
    elim (Bool-cases (is_read m)) [
      | inl r ↦
          let i : incoming (n ∷ ns) ≡ x ++ incoming ns = rw same (rw r refl) in
          let head : take m.len (x ++ incoming ns) ≡ x = rw l (take-append x (incoming ns)) in
          let tail : drop m.len (x ++ incoming ns) ≡ incoming ns =
            rw l (drop-append x (incoming ns)) in
          ap (decode_response (m ∷ ms)) i
          ∙ decode_read m ms ns (x ++ incoming ns) r
              (omega (arith, l, length-append x (incoming ns))) (omega (arith, e))
              (ap (decode_response ms) tail ∙ rest)
          ∙ ap (λ b. some (record m { buf = b } ∷ ns))
              (ap (λ b. b ++ drop m.len m.buf) head
                ∙ ap (λ b. x ++ b) (drop_all m.len m.buf e)
                ∙ append_nil x)
          ∙ ap (λ n. some (n ∷ ns)) (sym same)
      | inr f ↦
          let i : incoming (n ∷ ns) ≡ incoming ns = rw same (rw f refl) in
          ap (decode_response (m ∷ ms)) i
          ∙ decode_write m ms ns (incoming ns) f rest
          ∙ ap (λ n. some (n ∷ ns)) (ap (λ b. record m { buf = b }) (sym (kept f)) ∙ sym same)
    ]

-- A transfer of at most 65535 messages, each with a buffer of its length of at most 65535 bytes, that
-- the other end answers with the data of its reads one behind the other: it does not fault, it
-- returns the number of messages, and each read has its own data and each write is as before.
pub transfer_operation-Answers :
    (ms ns : List I2cMsg)
    → All IsWhole ms
    → length ms ≤ u16_max
    → Answers ms ns
    → transfer_operation true (λ payload size. (success, incoming ns)) ms
      ≡ some (count (length ms), ns)
unfolding transfer_operation
transfer_operation-Answers ms ns w b a =
    rw ((operation_create_lem ms w b).0, transfer_operation)
      (rw (decode_response-incoming ms ns w a) refl)
