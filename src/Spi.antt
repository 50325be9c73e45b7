-- ===== src/Spi.antt =====
-- The SPI driver, spi.c: a message of several transfers is one operation; and what the driver asks of
-- the controller at its start. `none` is a memory fault: a copy past the end of a buffer.
pub mod Kind
pub mod Layout
pub mod Message
mod Tests
use greybus.Base.{
  ℕ, Bool, true, false, Option, none, some, List, [], ◌∷◌, ◌++◌, ◌+◌, ◌*◌, ◌%◌, ◌^◌, ltb, not,
  is_some, if◌then◌else◌, ◌||◌, length, take, drop, get_or,
}
use greybus.Base.Monad.{Call, pure, ◌>>=◌}
use greybus.Base.Bytes.{byte0, byte1, byte2, byte3, le32}
use greybus.Errno.{Errno, success, enomem, is_success}
use greybus.Operation.Message.{low, high, le16}
use greybus.Sync.{Serve, operation_sync}
use greybus.Spi.Kind

-- `struct spi_transfer`, of the kernel; a buffer that is NULL is `none`.
pub record Xfer : Type 0 where
  pub tx_buf : Option (List ℕ)
  pub rx_buf : Option (List ℕ)
  pub len : ℕ
  pub speed_hz : ℕ
  pub delay_usecs : ℕ
  pub cs_change : ℕ
  pub bits_per_word : ℕ

-- The sizes that the first loop of gb_spi_operation_create adds up, in 32 bits.
pub record Sizes : Type 0 where
  pub tx : ℕ
  pub rx : ℕ
  pub total : ℕ

-- `x` more, if the buffer is there.
abbrev pub more : Option (List ℕ) → ℕ → ℕ → ℕ
more none len n = n
more (some _) len n = (len + n) % 2 ^ 32

-- That loop; `none` is a transfer without a buffer.
unfoldable pub sizes : List Xfer → Option Sizes
sizes [] = some (record { tx = 0; rx = 0; total = 0 })
sizes (x ∷ xs) = elim (sizes xs) [
  | none ↦ none
  | some s ↦
      if is_some x.tx_buf || is_some x.rx_buf
      then some (record {
        tx = more x.tx_buf x.len s.tx;
        rx = more x.rx_buf x.len s.rx;
        total = (x.len + s.total) % 2 ^ 32;
      })
      else none
]

-- The bytes of a `struct gb_spi_transfer`.
unfoldable pub fill_xfer : Xfer → List ℕ
fill_xfer x =
    byte0 x.speed_hz
    ∷ byte1 x.speed_hz
    ∷ byte2 x.speed_hz
    ∷ byte3 x.speed_hz
    ∷ byte0 x.len
    ∷ byte1 x.len
    ∷ byte2 x.len
    ∷ byte3 x.len
    ∷ low x.delay_usecs
    ∷ high x.delay_usecs
    ∷ x.cs_change % 256
    ∷ x.bits_per_word % 256
    ∷ []

unfoldable pub fill_xfers : List Xfer → List ℕ
fill_xfers [] = []
fill_xfers (x ∷ xs) = fill_xfer x ++ fill_xfers xs

-- The outgoing data, one buffer behind the other.
unfoldable pub copy_tx : List Xfer → Option (List ℕ)
copy_tx [] = some []
copy_tx (x ∷ xs) = elim (copy_tx xs) [
  | none ↦ none
  | some rest ↦ elim x.tx_buf [
    | none ↦ some rest
    | some buf ↦ if ltb (length buf) x.len then none else some (take x.len buf ++ rest)
  ]
]

-- What gb_spi_operation_create gives: nothing, or an operation with the payload of its request and the
-- size of its response, and the sum of the lengths.
pub data Created : Type 0 where
  refused : Created
  created : List ℕ → ℕ → ℕ → Created

abbrev pub request_size : List Xfer → Sizes → ℕ
request_size xs s = (4 + length xs * 12 + s.tx) % 2 ^ 32

-- gb_spi_operation_create; `has_operation` is whether gb_operation_create succeeds.
unfoldable pub operation_create : Bool → ℕ → ℕ → List Xfer → Option Created
operation_create has_operation chip_select mode xs = elim (sizes xs) [
  | none ↦ some refused
  | some s ↦
      if ltb 65535 (length xs)
      then some refused
      else if not has_operation
      then some refused
      else elim (copy_tx xs) [
        | none ↦ none
        | some tx ↦
            let payload =
              chip_select % 256
              ∷ mode % 256
              ∷ low (length xs)
              ∷ high (length xs)
              ∷ (fill_xfers xs ++ tx) in
            if ltb (request_size xs s) (length payload)
            then none
            else some (created payload s.rx s.total)
      ]
]

-- gb_spi_decode_response
unfoldable pub decode_response : List Xfer → List ℕ → Option (List Xfer)
decode_response [] response = some []
decode_response (x ∷ xs) response = elim x.rx_buf [
  | none ↦ elim (decode_response xs response) [ none ↦ none | some rest ↦ some (x ∷ rest) ]
  | some buf ↦
      if ltb (length response) x.len
      then none
      else if ltb (length buf) x.len
      then none
      else elim (decode_response xs (drop x.len response)) [
        | none ↦ none
        | some rest ↦
            some (record x { rx_buf = some (take x.len response ++ drop x.len buf) } ∷ rest)
      ]
]

-- What gb_spi_transfer_one_message leaves: its result, the message's actual length and status, if they
-- are set, and the transfers.
pub record Outcome : Type 0 where
  pub ret : Errno
  pub actual_length : Option ℕ
  pub status : Option Errno
  pub transfers : List Xfer

-- gb_spi_transfer_one_message. `send` is the answer to the operation, and the payload of its response.
unfoldable pub transfer_one_message :
    Bool → (List ℕ → ℕ → Errno × List ℕ) → ℕ → ℕ → List Xfer → Option Outcome
transfer_one_message has_operation send chip_select mode xs =
    elim (operation_create has_operation chip_select mode xs) [
      | none ↦ none
      | some refused ↦
          some (record { ret = enomem; actual_length = none; status = none; transfers = xs })
      | some (created payload rx_size len) ↦
          let (ret, response) = send payload rx_size in
          elim (if is_success ret then decode_response xs response else some xs) [
            | none ↦ none
            | some after ↦ some (record {
              ret = ret;
              actual_length = some len;
              status = some success;
              transfers = after;
            })
          ]
    ]

-- `struct gb_spi`
pub record Spi : Type 0 where
  pub mode : ℕ
  pub flags : ℕ
  pub bits_per_word_mask : ℕ
  pub num_chipselect : ℕ

abbrev half : List ℕ → ℕ
half bytes = le16 (get_or bytes 0 0) (get_or bytes 1 0)

-- A question to the controller, and what the driver keeps of the answer.
unfoldable pub query : {R : Type 0} → Serve R → ℕ → ℕ → (List ℕ → Spi → Spi) → Call (Spi × R) Errno
query serve kind size keep s = elim (operation_sync serve kind [] size s) [
  | none ↦ none
  | some ((ret, response), (spi, r)) ↦
      if is_success ret then some (ret, (keep response spi, r)) else some (ret, (spi, r))
]

module _ {R : Type 0} (serve : Serve R) where
  -- gb_spi_mode_operation, gb_spi_flags_operation, gb_spi_bpw_operation, gb_spi_chipselect_operation
  unfoldable pub mode_operation : Call (Spi × R) Errno
  mode_operation = query serve Kind.mode 2 λ bytes spi. record spi { mode = half bytes }

  unfoldable pub flags_operation : Call (Spi × R) Errno
  flags_operation = query serve Kind.flags 2 λ bytes spi. record spi { flags = half bytes }

  unfoldable pub bpw_operation : Call (Spi × R) Errno
  bpw_operation = query serve Kind.bits_per_word_mask 4 λ bytes spi. record spi {
    bits_per_word_mask =
        le32 (get_or bytes 0 0) (get_or bytes 1 0) (get_or bytes 2 0) (get_or bytes 3 0);
  }

  unfoldable pub chipselect_operation : Call (Spi × R) Errno
  chipselect_operation =
      query serve Kind.num_chipselect 2 λ bytes spi. record spi { num_chipselect = half bytes }

  -- gb_spi_init
  unfoldable pub init : Call (Spi × R) Errno
  init = mode_operation >>= λ ret.
      if is_success ret
      then (flags_operation >>= λ ret.
          if is_success ret
          then (chipselect_operation >>= λ ret. if is_success ret then bpw_operation else pure ret)
          else pure ret)
      else pure ret
