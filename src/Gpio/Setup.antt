-- ===== src/Gpio/Setup.antt =====
-- The GPIO driver's connection, gpio.c: what is built up when it comes and taken down when it goes.
use greybus.Base.{ℕ, zero, suc, Bool, Option, none, some, List, [], ◌∷◌, ◌+◌, if◌then◌else◌, get_or}
use greybus.Errno.{Errno, success, einval, enomem, is_success}
use greybus.Sync.{Serve}
use greybus.Gpio.{Controller, controller_setup}

-- What the kernel is told, the last first.
pub data Event : Type 0 where
  controller_allocated controller_freed lines_allocated lines_freed chip_added chip_removed : Event
  domain_added domain_removed : Event
  mapping_created mapping_disposed : ℕ → Event

-- A controller with its interrupts: the number of the first, and the mapping of each line.
pub record Gpio : Type 0 where
  pub controller : Controller
  pub irq_base : ℕ
  pub mappings : List ℕ

-- `connection->private`: nothing, a controller, or memory that was given back.
pub data Private : Type 0 where
  null dangling : Private
  held : Gpio → Private

-- What the kernel answers: whether there is memory for the controller and for its lines, gpiochip_add,
-- whether irq_domain_add_simple gives a domain, and irq_create_mapping.
pub record Kernel : Type 0 where
  pub has_controller : Bool
  pub has_memory : Bool
  pub gpiochip_add : Errno
  pub has_domain : Bool
  pub create_mapping : ℕ → ℕ

-- The loop of gb_gpio_irqchip_add: `left` offsets from `offset` on.
unfoldable pub create_mappings : (ℕ → ℕ) → ℕ → ℕ → List ℕ
create_mappings create offset zero = []
create_mappings create offset (suc left) = create offset ∷ create_mappings create (offset + 1) left

-- The mappings that the loop makes, the first line's first.
unfoldable pub tell_mappings : List ℕ → List Event → List Event
tell_mappings [] log = log
tell_mappings (irq ∷ irqs) log = tell_mappings irqs (mapping_created irq ∷ log)

-- gb_gpio_irqchip_add, for a chip and an irqchip that are there.
unfoldable pub irqchip_add : Kernel → Controller → List Event → (Errno × Option Gpio) × List Event
irqchip_add k c log =
    if k.has_domain
    then (
      (
        success,
        some (record {
          controller = c;
          irq_base = k.create_mapping 0;
          mappings = create_mappings k.create_mapping 0 (c.line_max + 1);
        }),
      ),
      tell_mappings (create_mappings k.create_mapping 0 (c.line_max + 1)) (domain_added ∷ log),
    )
    else ((einval, none), log)

-- The end of gb_gpio_connection_init, once the lines are there; its labels irqchip_err, err_free_lines
-- and err_free_controller take back what was done.
unfoldable pub add_chips : Kernel → Controller → List Event → (Errno × Private) × List Event
add_chips k c log =
    if is_success k.gpiochip_add
    then (let ((ret, gpio), log) = irqchip_add k c (chip_added ∷ log) in
        elim gpio [
          | some g ↦ ((ret, held g), log)
          | none ↦ ((ret, dangling), controller_freed ∷ lines_freed ∷ chip_removed ∷ log)
        ])
    else ((k.gpiochip_add, dangling), controller_freed ∷ lines_freed ∷ log)

-- gb_gpio_connection_init
unfoldable pub connection_init :
    {R : Type 0} → Serve R → Kernel → R → Option (((Errno × Private) × List Event) × R)
connection_init serve k r =
    if k.has_controller
    then elim (controller_setup serve k.has_memory (record { line_max = 0; lines = [] }, r)) [
      | none ↦ none
      | some (ret, (c, r)) ↦
          if is_success ret
          then some (add_chips k c (lines_allocated ∷ controller_allocated ∷ []), r)
          else some (((ret, dangling), controller_freed ∷ controller_allocated ∷ []), r)
    ]
    else some (((enomem, null), []), r)

-- gb_gpio_irqchip_remove: the mappings of the lines are disposed of, the first line's first, and the
-- domain is removed.
unfoldable pub dispose : List ℕ → List Event → List Event
dispose [] log = log
dispose (irq ∷ irqs) log = dispose irqs (mapping_disposed irq ∷ log)

-- gb_gpio_connection_exit; `none` is a use of memory that was given back.
unfoldable pub connection_exit : Private → List Event → Option (List Event)
connection_exit null log = some log
connection_exit dangling log = none
connection_exit (held g) log =
    some (controller_freed ∷ lines_freed ∷ chip_removed ∷ domain_removed ∷ dispose g.mappings log)

-- gb_gpio_to_irq, and irq_find_mapping: the mapping of a line, 0 where there is none.
unfoldable pub to_irq : Gpio → ℕ → ℕ
to_irq g offset = get_or g.mappings offset 0
