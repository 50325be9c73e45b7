-- ===== src/Spi/Tests.antt =====
-- A byte goes out while one comes in, and two more come in.
use greybus.Base.{ℕ, ◌≡◌, refl, arith, true, none, some, List, [], ◌∷◌, All, ◌==◌, if◌then◌else◌}
use greybus.Errno.{success}
use greybus.Sync.{Serve, answered, operation_sync, received}
use greybus.Spi.{
  Xfer, Spi, transfer_one_message, init, mode_operation, flags_operation, chipselect_operation,
  bpw_operation, query,
}
use greybus.Spi.Kind
use greybus.Spi.Layout.{IsWhole, incoming}
use greybus.Spi.Message.{transfer_one_message-Answers}

abbrev xfer : List ℕ → Xfer
xfer buf = record {
  tx_buf = some (7 ∷ []);
  rx_buf = some buf;
  len = 1;
  speed_hz = 1000000;
  delay_usecs = 0;
  cs_change = 0;
  bits_per_word = 8;
}

abbrev read : List ℕ → Xfer
read buf = record (xfer []) { tx_buf = none; rx_buf = some buf; len = 2 }

abbrev before : List Xfer
before = xfer (0 ∷ []) ∷ read (0 ∷ 0 ∷ []) ∷ []

abbrev after : List Xfer
after = xfer (5 ∷ []) ∷ read (8 ∷ 9 ∷ []) ∷ []

before-IsWhole : All IsWhole before
before-IsWhole = (
  record { some_buffer = refl; tx = refl; rx = refl },
  (record { some_buffer = refl; tx = tt; rx = refl }, tt),
)

transfer_one_message-Answers_example :
    transfer_one_message true (λ payload size. (success, incoming after)) 1 0 before
    ≡ some
        (record { ret = success; actual_length = some 3; status = some success; transfers = after })
transfer_one_message-Answers_example =
    transfer_one_message-Answers 1 0 before after before-IsWhole (ground arith) (ground arith)
      ((refl, refl), ((refl, refl), tt))

-- A controller that answers each question with as many bytes as are asked for.
abbrev serve : Serve (List ℕ)
serve kind payload log = (
  answered success (if kind == Kind.bits_per_word_mask then 255 ∷ 0 ∷ 0 ∷ 0 ∷ [] else 3 ∷ 0 ∷ []),
  kind ∷ log,
)

abbrev unknown : Spi
unknown = record { mode = 0; flags = 0; bits_per_word_mask = 0; num_chipselect = 0 }

started :
    init serve (unknown, [])
    ≡ some (
      success,
      (
        record { mode = 3; flags = 3; bits_per_word_mask = 255; num_chipselect = 3 },
        Kind.bits_per_word_mask ∷ Kind.num_chipselect ∷ Kind.flags ∷ Kind.mode ∷ [],
      ),
    )
unfolding init mode_operation flags_operation chipselect_operation bpw_operation query
    operation_sync received
started = refl
