-- ===== src/I2c.antt =====
-- The I2C driver, i2c.c: a transfer of several messages is one operation. A structure's bytes are a
-- list; `none` is a memory fault: a copy past the end of a buffer.
pub mod Layout
mod Tests
use greybus.Base.{
  ℕ, ◌+◌, ◌*◌, ◌%◌, ◌^◌, Bool, true, false, Option, none, some, List, [], ◌∷◌, ◌++◌, ◌==◌, ltb, not,
  if◌then◌else◌, length, take, drop,
}
use greybus.Errno.{Errno, success, enomem, eagain, enodev, is_success}
use greybus.Operation.Message.{low, high}

-- `struct i2c_msg`, of the kernel.
pub record I2cMsg : Type 0 where
  pub addr : ℕ
  pub flags : ℕ
  pub len : ℕ
  pub buf : List ℕ

abbrev pub u16_max : ℕ
u16_max = 65535

-- sizeof(struct gb_i2c_transfer_request)
abbrev pub request_header : ℕ
request_header = 2

-- sizeof(struct gb_i2c_transfer_op)
abbrev pub op_size : ℕ
op_size = 6

-- `msg->flags & I2C_M_RD`, which is the lowest bit.
abbrev pub is_read : I2cMsg → Bool
is_read m = m.flags % 2 == 1

-- The sizes that the first loop adds up, in 32 bits.
unfoldable pub data_in_size : List I2cMsg → ℕ
data_in_size [] = 0
data_in_size (m ∷ ms) = if is_read m then (m.len + data_in_size ms) % 2 ^ 32 else data_in_size ms

unfoldable pub data_out_size : List I2cMsg → ℕ
data_out_size [] = 0
data_out_size (m ∷ ms) = if is_read m then data_out_size ms else (m.len + data_out_size ms) % 2 ^ 32

abbrev pub request_size : List I2cMsg → ℕ
request_size msgs = request_header + length msgs * op_size + data_out_size msgs

-- gb_i2c_fill_transfer_op: the bytes of a `struct gb_i2c_transfer_op`.
unfoldable pub fill_transfer_op : I2cMsg → List ℕ
fill_transfer_op m =
    low m.addr ∷ high m.addr ∷ low m.flags ∷ high m.flags ∷ low m.len ∷ high m.len ∷ []

unfoldable pub fill_ops : List I2cMsg → List ℕ
fill_ops [] = []
fill_ops (m ∷ ms) = fill_transfer_op m ++ fill_ops ms

-- The outgoing data, one buffer behind the other.
unfoldable pub copy_out : List I2cMsg → Option (List ℕ)
copy_out [] = some []
copy_out (m ∷ ms) = elim (copy_out ms) [
  | none ↦ none
  | some rest ↦
      if is_read m
      then some rest
      else if ltb (length m.buf) m.len
      then none
      else some (take m.len m.buf ++ rest)
]

-- What gb_i2c_operation_create gives: nothing, or an operation with the payload of its request and the
-- size of its response.
pub data Created : Type 0 where
  refused : Created
  created : List ℕ → ℕ → Created

-- gb_i2c_operation_create; `has_operation` is whether gb_operation_create succeeds. The payload is
-- written from its start; a fault is a write past its size.
unfoldable pub operation_create : Bool → List I2cMsg → Option Created
operation_create has_operation msgs =
    if ltb u16_max (length msgs)
    then some refused
    else if not has_operation
    then some refused
    else elim (copy_out msgs) [
      | none ↦ none
      | some out ↦
          let payload = low (length msgs) ∷ high (length msgs) ∷ (fill_ops msgs ++ out) in
          if ltb (request_size msgs) (length payload)
          then none
          else some (created payload (data_in_size msgs))
    ]

-- gb_i2c_decode_response
unfoldable pub decode_response : List I2cMsg → List ℕ → Option (List I2cMsg)
decode_response [] response = some []
decode_response (m ∷ ms) response =
    if is_read m
    then if ltb (length response) m.len
      then none
      else if ltb (length m.buf) m.len
      then none
      else elim (decode_response ms (drop m.len response)) [
        | none ↦ none
        | some rest ↦ some (record m { buf = take m.len response ++ drop m.len m.buf } ∷ rest)
      ]
    else elim (decode_response ms response) [ none ↦ none | some rest ↦ some (m ∷ rest) ]

pub data Transferred : Type 0 where
  failed : Errno → Transferred
  count : ℕ → Transferred

-- gb_i2c_transfer_operation, with the messages after it. `send` is the answer to the operation, and
-- the payload of its response.
unfoldable pub transfer_operation :
    Bool → (List ℕ → ℕ → Errno × List ℕ) → List I2cMsg → Option (Transferred × List I2cMsg)
transfer_operation has_operation send msgs = elim (operation_create has_operation msgs) [
  | none ↦ none
  | some refused ↦ some (failed enomem, msgs)
  | some (created payload response_size) ↦
      let (ret, response) = send payload response_size in
      if is_success ret
      then elim (decode_response msgs response) [
        | none ↦ none
        | some read ↦ some (count (length msgs), read)
      ]
      else some (failed ret, msgs)
]
