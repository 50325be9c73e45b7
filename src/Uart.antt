-- ===== src/Uart.antt =====
-- The UART driver, uart.c: a terminal, what it receives and sends, and its control lines. `none` is a
-- memory fault: a read past the end of a request or a write past the end of the buffer.
pub mod Kind
pub mod Control
pub mod Lines
pub mod Session
pub mod Minors
mod Tests
use Prim.Native.Nat.{bit_and, bit_or}
use greybus.Base.{
  ℕ, zero, min, Bool, true, false, Option, none, some, List, [], ◌∷◌, ◌++◌, ◌+◌, ◌-◌, ◌%◌, ◌^◌,
  ◌==◌, ◌||◌, ◌&&◌, not, ltb, if◌then◌else◌, get_or, length, take, drop, map,
}
use greybus.Base.Monad.{Call, pure, ◌>>=◌}
use greybus.Base.Bytes.{byte0, byte1, byte2, byte3}
use greybus.Errno.{Errno, success, einval, is_success}
use greybus.Operation.Message.{low, high, le16}
use greybus.Sync.{Serve, operation_sync}
use greybus.Uart.Kind

-- `struct gb_tty_line_coding`
pub record LineCoding : Type 0 where
  pub rate : ℕ
  pub format : ℕ
  pub parity : ℕ
  pub data_bits : ℕ

-- The kernel's marks on a received character.
pub data Mark : Type 0 where
  normal brk parity frame overrun : Mark

-- `struct gb_tty`; `flip` holds the characters in the port's flip buffer, with their marks.
pub record Tty : Type 0 where
  pub buffer_payload_max : ℕ
  pub minor : ℕ
  pub clocal : Bool
  pub ctrlin : ℕ
  pub ctrlout : ℕ
  pub line_coding : LineCoding
  pub flip : List (ℕ × Mark)

abbrev pub has_bits : ℕ → ℕ → Bool
has_bits m x = not (bit_and x m == 0)

-- The mark for the flags of received data.
unfoldable pub mark_of : ℕ → Mark
mark_of flags =
    if has_bits Kind.recv_break flags
    then brk
    else if has_bits Kind.recv_parity flags
    then parity
    else if has_bits Kind.recv_framing flags
    then frame
    else normal

-- What the flags put in front of the data.
unfoldable pub overrun_of : ℕ → List (ℕ × Mark)
overrun_of flags = if has_bits Kind.recv_overrun flags then (0, overrun) ∷ [] else []

-- gb_uart_receive_data, on the payload of a request; `room` is how many of the characters
-- tty_insert_flip_string_fixed_flag takes.
unfoldable pub receive_data : ℕ → List ℕ → Tty → Option (Errno × Tty)
receive_data room payload t =
    let size = le16 (get_or payload 0 0) (get_or payload 1 0) in
    let flags = get_or payload 2 0 in
    if ltb (length payload) 3
    then none
    else if size == 0 || ltb (t.buffer_payload_max - 3) size
    then some (einval, t)
    else if ltb (length payload) (3 + size)
    then none
    else let chars = map (λ c. (c, mark_of flags)) (take (min room size) (drop 3 payload)) in
      some (success, record t { flip = t.flip ++ (overrun_of flags ++ chars) })

-- gb_uart_request_recv
unfoldable pub request_recv : ℕ → ℕ → List ℕ → Tty → Option (Errno × Tty)
request_recv room type payload t =
    if type == Kind.receive_data
    then receive_data room payload t
    else if type == Kind.serial_state
    then if ltb (length payload) 1
      then none
      else some (success, record t { ctrlin = get_or payload 0 0 })
    else some (einval, t)

-- What send_data returns.
pub data Sent : Type 0 where
  failed : Errno → Sent
  count : ℕ → Sent

-- The bits of a termios' c_cflag that the driver reads, and its baud rate.
pub data Size : Type 0 where
  cs5 cs6 cs7 cs8 : Size

pub record Termios : Type 0 where
  pub baud : ℕ
  pub is_b0 : Bool
  pub cstopb : Bool
  pub parenb : Bool
  pub parodd : Bool
  pub cmspar : Bool
  pub clocal : Bool
  pub crtscts : Bool
  pub csize : Size

unfoldable pub bits_of : Size → ℕ
bits_of cs5 = 5
bits_of cs6 = 6
bits_of cs7 = 7
bits_of cs8 = 8

-- The line coding that gb_tty_set_termios reads off.
unfoldable pub coding_of : Termios → LineCoding
coding_of n = record {
  rate = n.baud;
  format = if n.cstopb then 2 else 0;
  parity = if n.parenb then (if n.parodd then 1 else 2) + (if n.cmspar then 2 else 0) else 0;
  data_bits = bits_of n.csize;
}

-- The control lines that it sets: no baud rate hangs up, and the first one after that raises DTR.
unfoldable pub control_of : Termios → Option Termios → ℕ → ℕ
control_of new old ctrl =
    if new.is_b0
    then bit_and ctrl Kind.ctrl_dtr
    else elim old [ none ↦ ctrl | some o ↦ if o.is_b0 then bit_or ctrl Kind.ctrl_dtr else ctrl ]

module _ {R : Type 0} (serve : Serve R) where
  -- send_data, with data that is there; the size is cut to 16 bits by its type.
  unfoldable pub send_data : ℕ → List ℕ → Call (Tty × R) Sent
  send_data size bytes (t, r) =
      if size % 2 ^ 16 == 0
      then some (count 0, (t, r))
      else let len = min (size % 2 ^ 16) t.buffer_payload_max in
        if ltb t.buffer_payload_max (2 + len) || ltb (length bytes) len
        then none
        else (operation_sync serve Kind.send_data (low len ∷ high len ∷ take len bytes) 0
              >>= λ (ret, _). pure (if is_success ret then count len else failed ret))
            (t, r)

  -- send_line_coding
  unfoldable pub send_line_coding : Call (Tty × R) Errno
  send_line_coding (t, r) =
      let c = t.line_coding in
      (operation_sync serve Kind.set_line_coding
            (byte0 c.rate
              ∷ byte1 c.rate
              ∷ byte2 c.rate
              ∷ byte3 c.rate
              ∷ c.format
              ∷ c.parity
              ∷ c.data_bits
              ∷ [])
            0
          >>= λ (ret, _). pure ret)
        (t, r)

  -- send_control
  unfoldable pub send_control : ℕ → Call (Tty × R) Errno
  send_control control =
      operation_sync serve Kind.set_control_line_state (control ∷ []) 0 >>= λ (ret, _). pure ret

  -- send_break, and gb_tty_break_ctl
  unfoldable pub send_break : ℕ → Call (Tty × R) Errno
  send_break state =
      if not (state == 0) && not (state == 1)
      then pure einval
      else (operation_sync serve Kind.send_break (state ∷ []) 0 >>= λ (ret, _). pure ret)

  unfoldable pub break_ctl : ℕ → Call (Tty × R) Errno
  break_ctl state = send_break (if state == 0 then 0 else 1)

  -- The two parts of gb_tty_set_termios that send, of which the second is always done.
  unfoldable pub change_control : ℕ → Call (Tty × R) Errno
  change_control ctrl (t, r) =
      if ctrl == t.ctrlout
      then some (success, (t, r))
      else send_control ctrl (record t { ctrlout = ctrl }, r)

  unfoldable pub change_coding : LineCoding → Call (Tty × R) Errno
  change_coding c (t, r) = send_line_coding (record t { line_coding = c }, r)

  -- gb_tty_set_termios; it returns nothing, here the result of the last request.
  unfoldable pub set_termios : Termios → Option Termios → Call (Tty × R) Errno
  set_termios new old (t, r) =
      let coding = coding_of new in
      (change_control (control_of new old t.ctrlout) >>= λ _.
      change_coding (if new.is_b0 then record coding { rate = t.line_coding.rate } else coding))
        (record t { clocal = new.clocal }, r)
