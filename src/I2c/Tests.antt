-- ===== src/I2c/Tests.antt =====
-- A register is written and two bytes are read.
use greybus.Base.{ℕ, ◌≡◌, refl, true, some, List, [], ◌∷◌, arith, All}
use greybus.Errno.{success, enodev}
use greybus.I2c.{
  I2cMsg, operation_create, count, failed, transfer_operation, data_in_size, data_out_size,
  copy_out, fill_ops, fill_transfer_op,
}
use greybus.I2c.Layout.{IsWhole, incoming, transfer_operation-Answers}

abbrev register : I2cMsg
register = record { addr = 0x48; flags = 0; len = 1; buf = 5 ∷ [] }

abbrev value : List ℕ → I2cMsg
value buf = record { addr = 0x48; flags = 1; len = 2; buf = buf }

abbrev messages : List I2cMsg
messages = register ∷ value (0 ∷ 0 ∷ []) ∷ []

abbrev answered : List I2cMsg
answered = register ∷ value (7 ∷ 9 ∷ []) ∷ []

messages-IsWhole : All IsWhole messages
messages-IsWhole = ((refl, ground arith), ((refl, ground arith), tt))

refused :
    transfer_operation true (λ payload size. (enodev, [])) messages ≡ some (failed enodev, messages)
unfolding transfer_operation operation_create data_in_size data_out_size copy_out fill_ops
    fill_transfer_op
refused = refl

transfer_operation-Answers_example :
    transfer_operation true (λ payload size. (success, incoming answered)) messages
    ≡ some (count 2, answered)
transfer_operation-Answers_example =
    transfer_operation-Answers messages answered messages-IsWhole (ground arith)
      ((5 ∷ [], refl, refl, λ n. refl), ((7 ∷ 9 ∷ [], refl, refl, λ n. absurd (ground arith)), tt))
