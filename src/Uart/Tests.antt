-- ===== src/Uart/Tests.antt =====
-- Terminals that come while another is there.
use greybus.Base.{ℕ, ◌≡◌, refl, arith, true, false, none, some, List, [], ◌∷◌, length, ◌==◌}
use greybus.Base.Monad.{Returns}
use greybus.Errno.{Errno, success, enospc}
use greybus.Sync.{Serve, answered}
use greybus.Uart.{Tty, frame, overrun, receive_data, mark_of, overrun_of, send_data}
use greybus.Uart.Control.{tiocmget, tiocmset, tiocm_dtr, tiocm_rts}
use greybus.Uart.Lines.{Modem, control, kept, tiocmget-tiocmset}
use greybus.Uart.Session.{
  Shared, Minor, free, no_minor, Kernel, connection_init, connection_exit, new_tty,
}
use greybus.Uart.Minors.{
  IsShared, OneMore, connection_init-OneMore, connection_exit-connection_init,
}

-- A module that accepts every request and keeps it.
abbrev serve : Serve (List (List ℕ))
serve kind payload log = (answered success [], payload ∷ log)

abbrev sixteen : List ℕ → Minor
sixteen ms = elim (length ms == 16) [ true ↦ no_minor enospc | false ↦ free (length ms) ]

abbrev kernel : Kernel
kernel = record {
  has_driver = true;
  register_driver = success;
  has_tty = true;
  payload_max = 64;
  has_buffer = true;
  idr_alloc = sixteen;
  register_device = success;
}

abbrev terminal : Tty
terminal = new_tty kernel 0

-- A character with a framing error comes behind the mark of an overrun.
received :
    receive_data 9 (1 ∷ 0 ∷ 5 ∷ 65 ∷ []) terminal
    ≡ some (success, record terminal { flip = (0, overrun) ∷ (65, frame) ∷ [] })
unfolding receive_data mark_of overrun_of
received = refl

-- Sixty-three characters and the size do not fit in the buffer of sixty-four bytes.
sent_past_buffer : send_data serve 63 [] (terminal, []) ≡ none
unfolding send_data
sent_past_buffer = refl

tiocmget-tiocmset_example :
    Returns {A = Errno}
      (λ _ s.
        (s.0.ctrlout ≡ control (kept true false false) (kept false true false))
        × Modem (tiocmget s.0) (kept true false false) (kept false true false) false false false)
      (tiocmset serve tiocm_dtr tiocm_rts (terminal, []))
tiocmget-tiocmset_example = tiocmget-tiocmset serve tiocm_dtr tiocm_rts terminal [] false false refl

abbrev shared : Shared
shared = record { references = 1; registered = true; minors = 0 ∷ []; ttys = 1; buffers = 1 }

shared-IsShared : IsShared shared
shared-IsShared = record {
  off = λ e. absurd (ground (arith, e));
  none_taken = λ e. absurd (ground (arith, e));
}

connection_init-OneMore_example :
    Returns (λ x s. OneMore shared x s.0) (connection_init serve kernel (shared, []))
connection_init-OneMore_example = connection_init-OneMore serve kernel shared [] shared-IsShared

connection_exit-connection_init_example :
    Returns
      (λ x s. (t : Tty) → x.1 ≡ some t → (connection_exit s.0).minors ≡ t.minor ∷ shared.minors)
      (connection_init serve kernel (shared, []))
connection_exit-connection_init_example =
    connection_exit-connection_init serve kernel shared [] shared-IsShared
      (λ e. absurd (ground (arith, e)))
