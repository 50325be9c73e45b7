-- ===== src/Uart/Session.antt =====
-- The UART driver's connections, uart.c: the terminals share a driver and a table of minor numbers.
use greybus.Base.{
  ℕ, Bool, true, false, Option, none, some, List, [], ◌∷◌, ◌+◌, ◌-◌, ◌==◌, not, if◌then◌else◌,
  erase,
}
use greybus.Base.Monad.{Call}
use greybus.Errno.{Errno, success, einval, enomem, enodev, enospc, is_success}
use greybus.Sync.{Serve}
use greybus.Uart.{Tty, send_control, send_line_coding}

-- Whether there was no space.
abbrev is_enospc : Errno → Bool
is_enospc enospc = true
is_enospc e = false

-- What all terminals share: reference_count, whether gb_tty_driver is registered, tty_minors, and how
-- many terminals and buffers are allocated.
pub record Shared : Type 0 where
  pub references : ℕ
  pub registered : Bool
  pub minors : List ℕ
  pub ttys : ℕ
  pub buffers : ℕ

-- What idr_alloc gives.
pub data Minor : Type 0 where
  free : ℕ → Minor
  no_minor : Errno → Minor

-- What the kernel answers: tty_alloc_driver and tty_register_driver, the memory for the terminal and
-- its buffer, idr_alloc below GB_NUM_MINORS, and tty_port_register_device.
pub record Kernel : Type 0 where
  pub has_driver : Bool
  pub register_driver : Errno
  pub has_tty : Bool
  pub payload_max : ℕ
  pub has_buffer : Bool
  pub idr_alloc : List ℕ → Minor
  pub register_device : Errno

-- gb_tty_init
unfoldable pub tty_init : Kernel → Shared → Errno × Shared
tty_init k d =
    if not k.has_driver
    then (enomem, d)
    else if is_success k.register_driver
    then (success, record d { registered = true })
    else (k.register_driver, d)

-- gb_tty_exit; idr_destroy forgets all minor numbers.
unfoldable pub tty_exit : Shared → Shared
tty_exit d = record d { registered = false; minors = [] }

-- The reference that a terminal gives back.
unfoldable pub drop_reference : Shared → Shared
drop_reference d =
    let left = record d { references = d.references - 1 } in
    if left.references == 0 then tty_exit left else left

-- The terminal of a new connection, 9600n81.
abbrev pub new_tty : Kernel → ℕ → Tty
new_tty k minor = record {
  buffer_payload_max = k.payload_max;
  minor = minor;
  clocal = false;
  ctrlin = 0;
  ctrlout = 0;
  line_coding = record { rate = 9600; format = 0; parity = 0; data_bits = 8 };
  flip = [];
}

-- release_minor
unfoldable pub release_minor : ℕ → Shared → Shared
release_minor minor d = record d { minors = erase minor d.minors }

-- The labels error_minor, error_payload and error_alloc.
unfoldable pub error_alloc : Shared → Shared
error_alloc d = drop_reference d

unfoldable pub error_payload : Shared → Shared
error_payload d = error_alloc (record d { ttys = d.ttys - 1 })

unfoldable pub error_minor : Shared → Shared
error_minor d = error_payload (record d { buffers = d.buffers - 1 })

module _ {R : Type 0} (serve : Serve R) (k : Kernel) where
  -- The two requests of a new terminal, whose results are not looked at.
  unfoldable pub configure : Tty → Call R (Unit {0})
  configure t r = elim (send_control serve t.ctrlout (t, r)) [
    | none ↦ none
    | some (_, (t, r)) ↦ elim (send_line_coding serve (t, r)) [
      | none ↦ none
      | some (_, (_, r)) ↦ some (tt, r)
    ]
  ]

  -- From alloc_minor to the end.
  unfoldable pub register : Shared → R → Option ((Errno × Option Tty) × (Shared × R))
  register d r = elim (k.idr_alloc d.minors) [
    | no_minor e ↦ some ((if is_enospc e then enodev else e, none), (error_minor d, r))
    | free minor ↦
        let t = new_tty k minor in
        let d = record d { minors = minor ∷ d.minors } in
        elim (configure t r) [
          | none ↦ none
          | some (_, r) ↦
              if is_success k.register_device
              then some ((success, some t), (d, r))
              else some ((k.register_device, none), (error_minor (release_minor minor d), r))
        ]
  ]

  -- From the allocation of the terminal on.
  unfoldable pub create : Shared → R → Option ((Errno × Option Tty) × (Shared × R))
  create d r =
      if not k.has_tty
      then some ((enomem, none), (error_alloc d, r))
      else if k.payload_max == 0
      then some ((einval, none), (error_payload (record d { ttys = d.ttys + 1 }), r))
      else if not k.has_buffer
      then some ((enomem, none), (error_payload (record d { ttys = d.ttys + 1 }), r))
      else register (record d { ttys = d.ttys + 1; buffers = d.buffers + 1 }) r

  -- gb_uart_connection_init
  unfoldable pub connection_init : Call (Shared × R) (Errno × Option Tty)
  connection_init (d, r) =
      let counted = record d { references = d.references + 1 } in
      if counted.references == 1
      then (let (ret, started) = tty_init k counted in
          if is_success ret
          then create started r
          else some ((ret, none), (record started { references = started.references - 1 }, r)))
      else create counted r

-- gb_uart_connection_exit; the port and its device are the kernel's.
unfoldable pub connection_exit : Shared → Shared
connection_exit d = drop_reference (record d { ttys = d.ttys - 1; buffers = d.buffers - 1 })
