-- ===== src/Operation/Status.antt =====
-- Status bytes and error numbers: gb_operation_status_map and gb_operation_errno_map.
use greybus.Base.{ℕ, ◌≡◌, ◌⊎◌, ◌↔◌, List, [], ◌∷◌, arith, ◌==◌, if◌then◌else◌, has}
use greybus.Errno.{
  Errno, success, eilseq, einval, enomem, eio, eprotonosupport, emsgsize, eagain, eintr, etimedout,
  enodev,
}

-- `enum gb_operation_result`
abbrev pub op_success : ℕ
op_success = 0x00

abbrev pub op_interrupted : ℕ
op_interrupted = 0x01

abbrev pub op_timeout : ℕ
op_timeout = 0x02

abbrev pub op_no_memory : ℕ
op_no_memory = 0x03

abbrev pub op_protocol_bad : ℕ
op_protocol_bad = 0x04

abbrev pub op_overflow : ℕ
op_overflow = 0x05

abbrev pub op_invalid : ℕ
op_invalid = 0x06

abbrev pub op_retry : ℕ
op_retry = 0x07

abbrev pub op_nonexistent : ℕ
op_nonexistent = 0x08

abbrev pub op_unknown_error : ℕ
op_unknown_error = 0xfe

abbrev pub op_malfunction : ℕ
op_malfunction = 0xff

unfoldable pub status_map : ℕ → Errno
status_map s =
    if s == op_success
    then success
    else if s == op_interrupted
    then eintr
    else if s == op_timeout
    then etimedout
    else if s == op_no_memory
    then enomem
    else if s == op_protocol_bad
    then eprotonosupport
    else if s == op_overflow
    then emsgsize
    else if s == op_invalid
    then einval
    else if s == op_retry
    then eagain
    else if s == op_nonexistent
    then enodev
    else if s == op_malfunction
    then eilseq
    else eio

unfoldable pub errno_map : Errno → ℕ
errno_map success = op_success
errno_map eintr = op_interrupted
errno_map etimedout = op_timeout
errno_map enomem = op_no_memory
errno_map eprotonosupport = op_protocol_bad
errno_map emsgsize = op_overflow
errno_map einval = op_invalid
errno_map eagain = op_retry
errno_map eilseq = op_malfunction
errno_map enodev = op_nonexistent
errno_map e = op_unknown_error

-- The status bytes of the enumeration.
abbrev pub codes : List ℕ
codes = 0 ∷ 1 ∷ 2 ∷ 3 ∷ 4 ∷ 5 ∷ 6 ∷ 7 ∷ 8 ∷ 0xfe ∷ 0xff ∷ []

-- Every status byte of the enumeration survives the way to an error number and back; a byte
-- outside it comes back as GB_OP_UNKNOWN_ERROR.
pub errno_map-status_map :
    (s : ℕ) → errno_map (status_map s) ≡ (if has s codes then s else op_unknown_error)
unfolding errno_map status_map
errno_map-status_map s = ground arith

-- What an error number becomes when it crosses the wire.
pub received : Errno → Errno
received e = status_map (errno_map e)

-- Crossing the wire changes an error number to -EIO or not at all, crossing twice is crossing
-- once, and only success arrives as success.
pub received_lem :
    (e : Errno)
    → ((received e ≡ e) ⊎ (received e ≡ eio))
      × (received (received e) ≡ received e)
      × ((received e ≡ success) ↔ (e ≡ success))
unfolding received errno_map status_map
received_lem e = ground arith
