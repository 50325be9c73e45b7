-- ===== src/Uart/Control.antt =====
-- The control lines of a terminal and its flow control, uart.c.
use Prim.Native.Nat.{bit_and, bit_or}
use greybus.Base.{ℕ, zero, suc, Bool, true, false, some, [], ◌∷◌, ◌-◌, ◌==◌, if◌then◌else◌}
use greybus.Base.Monad.{Call, pure, ◌>>=◌}
use greybus.Errno.{Errno, success}
use greybus.Sync.{Serve}
use greybus.Uart.{Tty, Sent, failed, count, has_bits, send_data, send_control}
use greybus.Uart.Kind

-- The kernel's numbers for the lines of a modem.
abbrev pub tiocm_dtr : ℕ
tiocm_dtr = 0x002

abbrev pub tiocm_rts : ℕ
tiocm_rts = 0x004

abbrev pub tiocm_cts : ℕ
tiocm_cts = 0x020

abbrev pub tiocm_cd : ℕ
tiocm_cd = 0x040

abbrev pub tiocm_ri : ℕ
tiocm_ri = 0x080

abbrev pub tiocm_dsr : ℕ
tiocm_dsr = 0x100

-- `x & m ? y : 0`
abbrev pub when_bits : ℕ → ℕ → ℕ → ℕ
when_bits m x y = if has_bits m x then y else 0

-- gb_tty_tiocmget
unfoldable pub tiocmget : Tty → ℕ
tiocmget t = bit_or (when_bits Kind.ctrl_dtr t.ctrlout tiocm_dtr) (
    bit_or (when_bits Kind.ctrl_rts t.ctrlout tiocm_rts) (
      bit_or (when_bits Kind.ctrl_dsr t.ctrlin tiocm_dsr) (
        bit_or (when_bits Kind.ctrl_ri t.ctrlin tiocm_ri)
          (bit_or (when_bits Kind.ctrl_dcd t.ctrlin tiocm_cd) tiocm_cts))))

-- The lines of the module that a mask of the modem's names.
unfoldable pub lines_of : ℕ → ℕ
lines_of mask =
    bit_or (when_bits tiocm_dtr mask Kind.ctrl_dtr) (when_bits tiocm_rts mask Kind.ctrl_rts)

-- `x & ~m`
abbrev pub without : ℕ → ℕ → ℕ
without m x = x - bit_and x m

module _ {R : Type 0} (serve : Serve R) where
  -- gb_tty_tiocmset
  unfoldable pub tiocmset : ℕ → ℕ → Call (Tty × R) Errno
  tiocmset set clear (t, r) =
      let newctrl = bit_or (without (lines_of clear) t.ctrlout) (lines_of set) in
      if t.ctrlout == newctrl
      then some (success, (t, r))
      else send_control serve newctrl (record t { ctrlout = newctrl }, r)

  -- gb_tty_throttle and gb_tty_unthrottle after the character: with hardware flow control the line RTS
  -- is lowered or raised.
  unfoldable pub lower_rts : Bool → Call (Tty × R) Errno
  lower_rts crtscts (t, r) =
      if crtscts
      then (let ctrl = without Kind.ctrl_rts t.ctrlout in
          send_control serve ctrl (record t { ctrlout = ctrl }, r))
      else some (success, (t, r))

  unfoldable pub raise_rts : Bool → Call (Tty × R) Errno
  raise_rts crtscts (t, r) =
      if crtscts
      then (let ctrl = bit_or t.ctrlout Kind.ctrl_rts in
          send_control serve ctrl (record t { ctrlout = ctrl }, r))
      else some (success, (t, r))

  -- Whether a character was written: `retval <= 0` ends the call.
  unfoldable pub goes_on : Sent → Bool
  goes_on (failed _) = false
  goes_on (count zero) = false
  goes_on (count (suc _)) = true

  -- gb_tty_throttle; `ixoff` is whether the terminal sends characters for its flow control.
  unfoldable pub throttle : Bool → ℕ → Bool → Call (Tty × R) Errno
  throttle ixoff stop_char crtscts =
      if ixoff
      then (send_data serve 1 (stop_char ∷ []) >>= λ sent.
          if goes_on sent then lower_rts crtscts else pure success)
      else lower_rts crtscts

  -- gb_tty_unthrottle
  unfoldable pub unthrottle : Bool → ℕ → Bool → Call (Tty × R) Errno
  unthrottle ixoff start_char crtscts =
      if ixoff
      then (send_data serve 1 (start_char ∷ []) >>= λ sent.
          if goes_on sent then raise_rts crtscts else pure success)
      else raise_rts crtscts
