-- ===== src/Pwm.antt =====
-- The PWM driver, pwm.c: requests about one of a chip's PWMs, and the start of its connection.
pub mod Kind
pub mod Asked
mod Tests
use greybus.Base.{
  ℕ, Bool, true, false, Option, none, some, List, [], ◌∷◌, ◌+◌, ◌%◌, ltb, if◌then◌else◌, not,
  get_or,
}
use greybus.Base.Monad.{Call, pure, ◌>>=◌}
use greybus.Base.Bytes.{byte0, byte1, byte2, byte3}
use greybus.Errno.{Errno, success, einval, enomem, is_success}
use greybus.Sync.{Serve, operation_sync}
use greybus.Pwm.Kind

-- `struct gb_pwm_chip`, with the kernel's number of PWMs.
pub record Chip : Type 0 where
  pub pwm_max : ℕ
  pub npwm : ℕ

module _ {R : Type 0} (serve : Serve R) where
  -- gb_pwm_count_operation
  unfoldable pub count_operation : Call (Chip × R) Errno
  count_operation s = elim (operation_sync serve Kind.pwm_count [] 1 s) [
    | none ↦ none
    | some ((ret, response), (c, r)) ↦
        if is_success ret
        then some (success, (record c { pwm_max = get_or response 0 0 }, r))
        else some (ret, (c, r))
  ]

  -- A request about a PWM, if the chip has it: its number comes before the other fields.
  unfoldable pub ask_one : ℕ → ℕ → List ℕ → Call (Chip × R) Errno
  ask_one kind which fields (c, r) =
      if ltb c.pwm_max which
      then some (einval, (c, r))
      else (operation_sync serve kind (which ∷ fields) 0 >>= λ (ret, _). pure ret) (c, r)

  unfoldable pub activate_operation : ℕ → Call (Chip × R) Errno
  activate_operation which = ask_one Kind.activate which []

  unfoldable pub deactivate_operation : ℕ → Call (Chip × R) Errno
  deactivate_operation which = ask_one Kind.deactivate which []

  unfoldable pub config_operation : ℕ → ℕ → ℕ → Call (Chip × R) Errno
  config_operation which duty period = ask_one Kind.config which (
      byte0 duty
      ∷ byte1 duty
      ∷ byte2 duty
      ∷ byte3 duty
      ∷ byte0 period
      ∷ byte1 period
      ∷ byte2 period
      ∷ byte3 period
      ∷ [])

  unfoldable pub set_polarity_operation : ℕ → ℕ → Call (Chip × R) Errno
  set_polarity_operation which polarity = ask_one Kind.polarity which (polarity ∷ [])

  unfoldable pub enable_operation : ℕ → Call (Chip × R) Errno
  enable_operation which = ask_one Kind.enable which []

  unfoldable pub disable_operation : ℕ → Call (Chip × R) Errno
  disable_operation which = ask_one Kind.disable which []

-- The calls of the chip's users: gb_pwm_request, free, config, set_polarity, enable and disable. A
-- PWM's number is cut to a byte, a polarity too, and times are of 32 bits.
pub data Ask : Type 0 where
  request free enable disable : ℕ → Ask
  config : ℕ → ℕ → ℕ → Ask
  set_polarity : ℕ → ℕ → Ask

unfoldable pub ask : {R : Type 0} → Serve R → Ask → Call (Chip × R) Errno
ask serve (request hwpwm) = activate_operation serve (hwpwm % 256)
ask serve (free hwpwm) = deactivate_operation serve (hwpwm % 256)
ask serve (enable hwpwm) = enable_operation serve (hwpwm % 256)
ask serve (disable hwpwm) = disable_operation serve (hwpwm % 256)
ask serve (config hwpwm duty period) = config_operation serve (hwpwm % 256) duty period
ask serve (set_polarity hwpwm polarity) =
    set_polarity_operation serve (hwpwm % 256) (polarity % 256)

-- gb_pwm_connection_init: the result, and the chip that is registered; `has_chip` is whether there is
-- memory, and `chip_add` the answer of pwmchip_add.
unfoldable pub connection_init :
    {R : Type 0} → Serve R → Bool → Errno → R → Option ((Errno × Option Chip) × R)
connection_init serve has_chip chip_add r =
    if not has_chip
    then some ((enomem, none), r)
    else elim (count_operation serve (record { pwm_max = 0; npwm = 0 }, r)) [
      | none ↦ none
      | some (ret, (c, r)) ↦
          if not (is_success ret)
          then some ((ret, none), r)
          else if is_success chip_add
          then some ((success, some (record c { npwm = c.pwm_max + 1 })), r)
          else some ((chip_add, none), r)
    ]
