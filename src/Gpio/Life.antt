-- ===== src/Gpio/Life.antt =====
-- The GPIO driver from the start of its connection to the end.
use greybus.Base.{
  ℕ, zero, suc, true, false, some, List, [], ◌∷◌, ◌+◌, ◌<◌, ◌≤◌, ◌≡◌, refl, get_or,
  length-replicate, arith, inl, inr, Bool-cases, replicate, ap, sym, ◌∙◌,
}
use greybus.Errno.{Errno, success, einval, enomem, is_success}
use greybus.Sync.{Serve, received, operation_sync}
use greybus.Gpio.{Controller, byte, controller_setup, line_count_operation, cleared}
use greybus.Gpio.Kind
use greybus.Gpio.Cache.{IsValid}
use greybus.Gpio.Setup.{
  Event, controller_allocated, controller_freed, lines_allocated, lines_freed, chip_added,
  chip_removed, domain_added, domain_removed, mapping_created, mapping_disposed, Gpio, Private,
  null, dangling, held, Kernel, create_mappings, tell_mappings, irqchip_add, add_chips,
  connection_init, dispose, connection_exit, to_irq,
}

-- What was built up, and in the same form what was taken down: how often the controller, its lines, its
-- chip and its domain, and the mappings of interrupts, the last first.
pub record Open : Type 0 where
  pub controllers : ℕ
  pub lines : ℕ
  pub chips : ℕ
  pub domains : ℕ
  pub mappings : List ℕ

abbrev pub nothing_open : Open
nothing_open = record { controllers = 0; lines = 0; chips = 0; domains = 0; mappings = [] }

abbrev pub opened : List Event → Open
opened [] = nothing_open
opened (controller_allocated ∷ log) =
    let o = opened log in record o { controllers = o.controllers + 1 }
opened (lines_allocated ∷ log) = let o = opened log in record o { lines = o.lines + 1 }
opened (chip_added ∷ log) = let o = opened log in record o { chips = o.chips + 1 }
opened (domain_added ∷ log) = let o = opened log in record o { domains = o.domains + 1 }
opened (mapping_created irq ∷ log) = let o = opened log in record o { mappings = irq ∷ o.mappings }
opened (_ ∷ log) = opened log

abbrev pub closed : List Event → Open
closed [] = nothing_open
closed (controller_freed ∷ log) = let o = closed log in record o { controllers = o.controllers + 1 }
closed (lines_freed ∷ log) = let o = closed log in record o { lines = o.lines + 1 }
closed (chip_removed ∷ log) = let o = closed log in record o { chips = o.chips + 1 }
closed (domain_removed ∷ log) = let o = closed log in record o { domains = o.domains + 1 }
closed (mapping_disposed irq ∷ log) = let o = closed log in record o { mappings = irq ∷ o.mappings }
closed (_ ∷ log) = closed log

-- Mappings in front of others, one after another.
abbrev onto : List ℕ → Open → Open
onto [] o = o
onto (irq ∷ irqs) o = onto irqs (record o { mappings = irq ∷ o.mappings })

opened-dispose : (irqs : List ℕ) (log : List Event) → opened (dispose irqs log) ≡ opened log
unfolding dispose
opened-dispose [] log = refl
opened-dispose (irq ∷ irqs) log = opened-dispose irqs (mapping_disposed irq ∷ log)

closed-dispose :
    (irqs : List ℕ) (log : List Event) → closed (dispose irqs log) ≡ onto irqs (closed log)
unfolding dispose
closed-dispose [] log = refl
closed-dispose (irq ∷ irqs) log = closed-dispose irqs (mapping_disposed irq ∷ log)

opened-tell_mappings :
    (irqs : List ℕ) (log : List Event) → opened (tell_mappings irqs log) ≡ onto irqs (opened log)
unfolding tell_mappings
opened-tell_mappings [] log = refl
opened-tell_mappings (irq ∷ irqs) log = opened-tell_mappings irqs (mapping_created irq ∷ log)

closed-tell_mappings :
    (irqs : List ℕ) (log : List Event) → closed (tell_mappings irqs log) ≡ closed log
unfolding tell_mappings
closed-tell_mappings [] log = refl
closed-tell_mappings (irq ∷ irqs) log = closed-tell_mappings irqs (mapping_created irq ∷ log)

get_or-create_mappings :
    (create : ℕ → ℕ) (offset left i : ℕ)
    → i < left
    → get_or (create_mappings create offset left) i 0 ≡ create (offset + i)
unfolding create_mappings
get_or-create_mappings create offset zero i h = absurd (omega (arith, h))
get_or-create_mappings create offset (suc left) zero h = ap create (omega arith)
get_or-create_mappings create offset (suc left) (suc i) h =
    get_or-create_mappings create (offset + 1) left i (omega (arith, h)) ∙ ap create (omega arith)

-- What a start that succeeded leaves: a valid controller in which each line has the mapping that the
-- kernel made for it, and an exit that does not fault and takes down all that was built up, with each
-- mapping that was made.
pub record IsStarted (k : Kernel) (g : Gpio) (log : List Event) : Type 0 where
  pub valid : IsValid g.controller
  pub mapped : (i : ℕ) → i ≤ g.controller.line_max → to_irq g i ≡ k.create_mapping i
  pub exit :
      (log' : List Event) × ((connection_exit (held g) log ≡ some log')
        × (opened log' ≡ closed log'))

-- A start that failed has taken down all that was built up.
abbrev pub Started : Kernel → (Errno × Private) × List Event → Type 0
Started k ((e, held g), log) = (e ≡ success) × IsStarted k g log
Started k ((e, _), log) = (is_success e ≡ false) × (opened log ≡ closed log)

-- One of each of the four, in front of what is there.
abbrev all_four : Open → Open
all_four o = record {
  controllers = o.controllers + 1;
  lines = o.lines + 1;
  chips = o.chips + 1;
  domains = o.domains + 1;
  mappings = o.mappings;
}

onto-all_four : (irqs : List ℕ) (o : Open) → onto irqs (all_four o) ≡ all_four (onto irqs o)
onto-all_four [] o = refl
onto-all_four (irq ∷ irqs) o = onto-all_four irqs (record o { mappings = irq ∷ o.mappings })

abbrev built : List Event
built = domain_added ∷ chip_added ∷ lines_allocated ∷ controller_allocated ∷ []

exit_balance :
    (irqs : List ℕ)
    → (let log = dispose irqs (tell_mappings irqs built) in
        opened log ≡ closed (controller_freed ∷ lines_freed ∷ chip_removed ∷ domain_removed ∷ log))
exit_balance irqs =
    let log = tell_mappings irqs built in
    opened-dispose irqs log
    ∙ opened-tell_mappings irqs built
    ∙ onto-all_four irqs nothing_open
    ∙ ap all_four
        (ap (onto irqs) (sym (closed-tell_mappings irqs built)) ∙ sym (closed-dispose irqs log))

abbrev gpio_of : Kernel → Controller → Gpio
gpio_of k c = record {
  controller = c;
  irq_base = k.create_mapping 0;
  mappings = create_mappings k.create_mapping 0 (c.line_max + 1);
}

add_chips_up :
    (k : Kernel) (c : Controller) (log : List Event)
    → is_success k.gpiochip_add ≡ true
    → k.has_domain ≡ true
    → add_chips k c log ≡ (
      (success, held (gpio_of k c)),
      tell_mappings (gpio_of k c).mappings (domain_added ∷ chip_added ∷ log),
    )
unfolding add_chips irqchip_add
add_chips_up k c log y d = ground (arith, y, d)

add_chips_down :
    (k : Kernel) (c : Controller) (log : List Event)
    → is_success k.gpiochip_add ≡ true
    → k.has_domain ≡ false
    → add_chips k c log
      ≡ ((einval, dangling), controller_freed ∷ lines_freed ∷ chip_removed ∷ chip_added ∷ log)
unfolding add_chips irqchip_add
add_chips_down k c log y d = ground (arith, y, d)

add_chips_refused :
    (k : Kernel) (c : Controller) (log : List Event)
    → is_success k.gpiochip_add ≡ false
    → add_chips k c log ≡ ((k.gpiochip_add, dangling), controller_freed ∷ lines_freed ∷ log)
unfolding add_chips
add_chips_refused k c log n = ground (arith, n)

gpio_of-IsStarted :
    (k : Kernel) (c : Controller)
    → IsValid c
    → IsStarted k (gpio_of k c) (tell_mappings (gpio_of k c).mappings built)
unfolding connection_exit to_irq
gpio_of-IsStarted k c v = record {
  valid = v;
  mapped = λ i h.
      get_or-create_mappings k.create_mapping 0 (c.line_max + 1) i (omega (arith, h))
      ∙ ap k.create_mapping (omega arith);
  exit = (_, (refl, exit_balance (create_mappings k.create_mapping 0 (c.line_max + 1))));
}

add_chips-Started :
    (k : Kernel) (c : Controller)
    → IsValid c
    → Started k (add_chips k c (lines_allocated ∷ controller_allocated ∷ []))
add_chips-Started k c v = elim (Bool-cases (is_success k.gpiochip_add)) [
  | inr n ↦ rw (add_chips_refused k c _ n) (n, refl)
  | inl y ↦ elim (Bool-cases k.has_domain) [
    | inr n ↦ rw (add_chips_down k c _ y n) (refl, refl)
    | inl d ↦ rw (add_chips_up k c _ y d) (refl, gpio_of-IsStarted k c v)
  ]
]

module _ {R : Type 0} (serve : Serve R) (k : Kernel) (r : R) where
  abbrev answer : Errno × List ℕ
  answer = received 1 (serve Kind.line_count [] r).0

  abbrev after : R
  after = (serve Kind.line_count [] r).1

  init_refused :
      k.has_controller ≡ true
      → is_success answer.0 ≡ false
      → connection_init serve k r
        ≡ some (((answer.0, dangling), controller_freed ∷ controller_allocated ∷ []), after)
  unfolding connection_init controller_setup line_count_operation operation_sync
  init_refused y n = ground (arith, y, n)

  init_without_memory :
      k.has_controller ≡ true
      → is_success answer.0 ≡ true
      → k.has_memory ≡ false
      → connection_init serve k r
        ≡ some (((enomem, dangling), controller_freed ∷ controller_allocated ∷ []), after)
  unfolding connection_init controller_setup line_count_operation operation_sync
  init_without_memory y s n = ground (arith, y, s, n)

  abbrev counted : Controller
  counted = record { line_max = byte answer.1; lines = replicate (byte answer.1 + 1) cleared }

  init_counted :
      k.has_controller ≡ true
      → is_success answer.0 ≡ true
      → k.has_memory ≡ true
      → connection_init serve k r
        ≡ some (add_chips k counted (lines_allocated ∷ controller_allocated ∷ []), after)
  unfolding connection_init controller_setup line_count_operation operation_sync
  init_counted y s m = ground (arith, y, s, m)

-- A connection's start does not fault, if the number of lines that is answered is a byte. It succeeds
-- exactly if it leaves a controller; that is valid, each line has the mapping that was made for it, and
-- its exit takes down all that was built up, with each of these mappings. If it fails all that was built up is taken down.
pub connection_init-Started :
    {R : Type 0} (serve : Serve R) (k : Kernel) (r : R)
    → byte (received 1 (serve Kind.line_count [] r).0).1 < 256
    → (x : (Errno × Private) × List Event) × (r' : R) × ((connection_init serve k r ≡ some (x, r'))
        × Started k x)
unfolding connection_init
connection_init-Started serve k r h = elim (Bool-cases k.has_controller) [
  | inr n ↦ (((enomem, null), []), r, (ground (arith, n), (refl, refl)))
  | inl y ↦ elim (Bool-cases (is_success (received 1 (serve Kind.line_count [] r).0).0)) [
    | inr n ↦ (_, _, (init_refused serve k r y n, (n, refl)))
    | inl s ↦ elim (Bool-cases k.has_memory) [
      | inr n ↦ (_, _, (init_without_memory serve k r y s n, (refl, refl)))
      | inl m ↦ (
        _,
        _,
        (
          init_counted serve k r y s m,
          add_chips-Started k (counted serve k r)
              (record { bounded = h; sized = length-replicate _ cleared }),
        ),
      )
    ]
  ]
]
