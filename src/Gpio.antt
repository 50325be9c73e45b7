-- ===== src/Gpio.antt =====
-- The GPIO driver, gpio.c: what it keeps of each line, and the requests that change it. `none` is a
-- fault: an access past the end of the lines.
mod Kind
pub mod Cache
pub mod Irq
pub mod Pending
pub mod Unlock
pub mod Setup
pub mod Life
mod Tests
use greybus.Base.{
  ℕ, zero, suc, Bool, true, false, Option, none, some, List, [], ◌∷◌, ◌+◌, ◌%◌, ◌==◌, ltb,
  if◌then◌else◌, get_elem?, get_or, set, replicate,
}
use greybus.Base.Monad.{Call, pure, ◌>>=◌}
use greybus.Errno.{Errno, success, einval, enomem, is_success}
use greybus.Operation.Message.{low, high}
use greybus.Sync.{Serve, operation_sync}
use greybus.Gpio.Kind

-- `struct gb_gpio_line`; a direction is 0 for output and 1 for input, a value 0 for low and 1 for high.
pub record Line : Type 0 where
  pub active : Bool
  pub direction : ℕ
  pub value : ℕ
  pub debounce_usec : ℕ
  pub irq_type : ℕ
  pub irq_type_pending : Bool
  pub masked : Bool
  pub masked_pending : Bool

-- `struct gb_gpio_controller`, without the kernel's chips.
pub record Controller : Type 0 where
  pub line_max : ℕ
  pub lines : List Line

-- A line that kcalloc has cleared.
abbrev pub cleared : Line
cleared = record {
  active = false;
  direction = 0;
  value = 0;
  debounce_usec = 0;
  irq_type = 0;
  irq_type_pending = false;
  masked = false;
  masked_pending = false;
}

-- `x ? 1 : 0` and `!!x`.
unfoldable pub bit : ℕ → ℕ
bit zero = 0
bit (suc n) = 1

-- `ggc->lines[which]`, read and written.
unfoldable pub line : {R : Type 0} → ℕ → Call (Controller × R) Line
line which (c, r) = elim (get_elem? c.lines which) [ none ↦ none | some l ↦ some (l, (c, r)) ]

unfoldable pub change : {R : Type 0} → ℕ → (Line → Line) → Call (Controller × R) Errno
change which f (c, r) = elim (get_elem? c.lines which) [
  | none ↦ none
  | some l ↦ some (success, (record c { lines = set c.lines which (f l) }, r))
]

-- What a request changes in the line, if it succeeds.
unfoldable pub then_change : {R : Type 0} → ℕ → (Line → Line) → Errno → Call (Controller × R) Errno
then_change which f ret s = if is_success ret then change which f s else pure ret s

abbrev pub byte : List ℕ → ℕ
byte bytes = get_or bytes 0 0

module _ {R : Type 0} (serve : Serve R) where
  -- gb_gpio_line_count_operation
  unfoldable pub line_count_operation : Call (Controller × R) Errno
  line_count_operation s = elim (operation_sync serve Kind.line_count [] 1 s) [
    | none ↦ none
    | some ((ret, response), (c, r)) ↦
        if is_success ret
        then some (ret, (record c { line_max = byte response }, r))
        else some (ret, (c, r))
  ]

  -- gb_gpio_activate_operation
  unfoldable pub activate_operation : ℕ → Call (Controller × R) Errno
  activate_operation which = operation_sync serve Kind.activate (which ∷ []) 0 >>= λ (ret, _).
      then_change which (λ l. record l { active = true }) ret

  -- gb_gpio_deactivate_operation; it returns nothing, here the result of the request.
  unfoldable pub deactivate_operation : ℕ → Call (Controller × R) Errno
  deactivate_operation which = operation_sync serve Kind.deactivate (which ∷ []) 0 >>= λ (ret, _).
      then_change which (λ l. record l { active = false }) ret

  -- gb_gpio_get_direction_operation
  unfoldable pub get_direction_operation : ℕ → Call (Controller × R) Errno
  get_direction_operation which =
      operation_sync serve Kind.get_direction (which ∷ []) 1 >>= λ (ret, response).
      then_change which (λ l. record l { direction = bit (byte response) }) ret

  -- gb_gpio_direction_in_operation
  unfoldable pub direction_in_operation : ℕ → Call (Controller × R) Errno
  direction_in_operation which =
      operation_sync serve Kind.direction_in (which ∷ []) 0 >>= λ (ret, _).
      then_change which (λ l. record l { direction = 1 }) ret

  -- gb_gpio_direction_out_operation
  unfoldable pub direction_out_operation : ℕ → ℕ → Call (Controller × R) Errno
  direction_out_operation which value_high =
      operation_sync serve Kind.direction_out (which ∷ bit value_high ∷ []) 0 >>= λ (ret, _).
      then_change which (λ l. record l { direction = 0 }) ret

  -- gb_gpio_get_value_operation
  unfoldable pub get_value_operation : ℕ → Call (Controller × R) Errno
  get_value_operation which =
      operation_sync serve Kind.get_value (which ∷ []) 1 >>= λ (ret, response).
      then_change which (λ l. record l { value = bit (byte response) }) ret

  -- gb_gpio_set_value_operation; it returns nothing, here the result of the request, or success where
  -- it refuses an input.
  unfoldable pub set_value_operation : ℕ → ℕ → Call (Controller × R) Errno
  set_value_operation which value_high = line which >>= λ l.
      if l.direction == 1
      then pure success
      else operation_sync serve Kind.set_value (which ∷ bit value_high ∷ []) 0 >>= λ (ret, _).
          then_change which (λ l. record l { value = bit value_high }) ret

  -- gb_gpio_set_debounce_operation
  unfoldable pub set_debounce_operation : ℕ → ℕ → Call (Controller × R) Errno
  set_debounce_operation which debounce_usec =
      operation_sync serve Kind.set_debounce (which ∷ low debounce_usec ∷ high debounce_usec ∷ []) 0
      >>= λ (ret, _). then_change which (λ l. record l { debounce_usec = debounce_usec }) ret

  -- gb_gpio_get_direction and gb_gpio_get: a line's number is cut to a byte, and what the cache says is
  -- returned beside the result.
  unfoldable pub get_direction : ℕ → Call (Controller × R) (Errno × ℕ)
  get_direction offset =
      let which = offset % 256 in
      get_direction_operation which >>= λ ret.
      if is_success ret
      then (line which >>= λ l. pure (success, bit l.direction))
      else pure (ret, 0)

  unfoldable pub get : ℕ → Call (Controller × R) (Errno × ℕ)
  get offset =
      let which = offset % 256 in
      get_value_operation which >>= λ ret.
      if is_success ret then (line which >>= λ l. pure (success, l.value)) else pure (ret, 0)

  -- gb_gpio_set_debounce
  unfoldable pub set_debounce : ℕ → ℕ → Call (Controller × R) Errno
  set_debounce offset debounce =
      if ltb 65535 debounce then pure einval else set_debounce_operation (offset % 256) debounce

  -- gb_gpio_controller_setup; `has_memory` is whether kcalloc succeeds.
  unfoldable pub controller_setup : Bool → Call (Controller × R) Errno
  controller_setup has_memory s = elim (line_count_operation s) [
    | none ↦ none
    | some (ret, (c, r)) ↦
        if is_success ret
        then if has_memory
          then some (ret, (record c { lines = replicate (c.line_max + 1) cleared }, r))
          else some (enomem, (c, r))
        else some (ret, (c, r))
  ]

-- The calls of the chip's users: gb_gpio_request, free, get_direction, direction_input, get,
-- direction_output, set and set_debounce, each of which cuts a line's number to a byte.
pub data Ask : Type 0 where
  request free read_direction direction_input read_value : ℕ → Ask
  direction_output write_value write_debounce : ℕ → ℕ → Ask

unfoldable pub ask : {R : Type 0} → Serve R → Ask → Call (Controller × R) Errno
ask serve (request offset) = activate_operation serve (offset % 256)
ask serve (free offset) = deactivate_operation serve (offset % 256)
ask serve (read_direction offset) = get_direction serve offset >>= λ (ret, _). pure ret
ask serve (direction_input offset) = direction_in_operation serve (offset % 256)
ask serve (direction_output offset value) = direction_out_operation serve (offset % 256) value
ask serve (read_value offset) = get serve offset >>= λ (ret, _). pure ret
ask serve (write_value offset value) = set_value_operation serve (offset % 256) value
ask serve (write_debounce offset debounce) = set_debounce serve offset debounce
