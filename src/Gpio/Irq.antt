-- ===== src/Gpio/Irq.antt =====
-- The interrupts of the GPIO driver, gpio.c: what is asked while the bus is locked is only noted, and
-- goes out when it is unlocked; and an event from the module.
use greybus.Base.{
  ℕ, Bool, true, false, Option, none, some, List, [], ◌∷◌, ◌==◌, ltb, if◌then◌else◌, length,
}
use greybus.Base.Monad.{Call, pure, ◌>>=◌}
use greybus.Errno.{Errno, success, einval}
use greybus.Sync.{Serve, operation_sync}
use greybus.Gpio.{Controller, line, change, byte}
use greybus.Gpio.Kind

-- The kernel's IRQ_TYPE numbers.
abbrev pub type_none : ℕ
type_none = 0

abbrev pub type_edge_rising : ℕ
type_edge_rising = 1

abbrev pub type_edge_falling : ℕ
type_edge_falling = 2

abbrev pub type_edge_both : ℕ
type_edge_both = 3

abbrev pub type_level_high : ℕ
type_level_high = 4

abbrev pub type_level_low : ℕ
type_level_low = 8

-- The switch of gb_gpio_irq_set_type.
unfoldable pub irq_type_of : ℕ → Option ℕ
irq_type_of type =
    if type == type_none
    then some Kind.irq_type_none
    else if type == type_edge_rising
    then some Kind.irq_type_edge_rising
    else if type == type_edge_falling
    then some Kind.irq_type_edge_falling
    else if type == type_edge_both
    then some Kind.irq_type_edge_both
    else if type == type_level_low
    then some Kind.irq_type_level_low
    else if type == type_level_high
    then some Kind.irq_type_level_high
    else none

-- The calls that the kernel makes while it holds the lock of the bus.
pub data Change : Type 0 where
  mask unmask : Change
  set_type : ℕ → Change

-- gb_gpio_irq_mask, gb_gpio_irq_unmask and gb_gpio_irq_set_type; the first two return nothing, here
-- success.
unfoldable pub irq_call : {R : Type 0} → ℕ → Change → Call (Controller × R) Errno
irq_call hwirq mask = change hwirq λ l. record l { masked = true; masked_pending = true }
irq_call hwirq unmask = change hwirq λ l. record l { masked = false; masked_pending = true }
irq_call hwirq (set_type type) = elim (irq_type_of type) [
  | none ↦ pure einval
  | some t ↦ change hwirq λ l. record l { irq_type = t; irq_type_pending = true }
]

unfoldable pub irq_calls : {R : Type 0} → ℕ → List Change → Call (Controller × R) Errno
irq_calls hwirq [] = pure success
irq_calls hwirq (k ∷ ks) = irq_call hwirq k >>= λ _. irq_calls hwirq ks

module _ {R : Type 0} (serve : Serve R) where
  -- _gb_gpio_irq_mask, _gb_gpio_irq_unmask and _gb_gpio_irq_set_type: a failure is only reported.
  unfoldable pub send_mask : ℕ → Call (Controller × R) (Errno × List ℕ)
  send_mask hwirq = operation_sync serve Kind.irq_mask (hwirq ∷ []) 0

  unfoldable pub send_unmask : ℕ → Call (Controller × R) (Errno × List ℕ)
  send_unmask hwirq = operation_sync serve Kind.irq_unmask (hwirq ∷ []) 0

  unfoldable pub send_type : ℕ → ℕ → Call (Controller × R) (Errno × List ℕ)
  send_type hwirq type = operation_sync serve Kind.irq_type (hwirq ∷ type ∷ []) 0

  -- The two parts of gb_gpio_irq_bus_sync_unlock.
  unfoldable pub flush_type : ℕ → Call (Controller × R) Errno
  flush_type hwirq = line hwirq >>= λ l.
      if l.irq_type_pending
      then (send_type hwirq l.irq_type >>= λ _.
          change hwirq λ l. record l { irq_type_pending = false })
      else pure success

  unfoldable pub flush_mask : ℕ → Call (Controller × R) Errno
  flush_mask hwirq = line hwirq >>= λ l.
      if l.masked_pending
      then ((if l.masked then send_mask hwirq else send_unmask hwirq) >>= λ _.
          change hwirq λ l. record l { masked_pending = false })
      else pure success

  -- gb_gpio_irq_bus_sync_unlock
  unfoldable pub bus_sync_unlock : ℕ → Call (Controller × R) Errno
  bus_sync_unlock hwirq = flush_type hwirq >>= λ _. flush_mask hwirq

-- gb_gpio_request_recv: the result, and the interrupt that is handled. `find_mapping` is the kernel's
-- irq_find_mapping, where 0 is no interrupt, and `has_desc` whether irq_to_desc finds one.
unfoldable pub request_recv : (ℕ → ℕ) → (ℕ → Bool) → Controller → ℕ → List ℕ → Errno × Option ℕ
request_recv find_mapping has_desc c type payload =
    if type == Kind.irq_event
    then if ltb (length payload) 1
      then (einval, none)
      else if ltb c.line_max (byte payload)
      then (einval, none)
      else if find_mapping (byte payload) == 0
      then (einval, none)
      else if has_desc (find_mapping (byte payload))
      then (success, some (find_mapping (byte payload)))
      else (einval, none)
    else (einval, none)
