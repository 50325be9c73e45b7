-- ===== src/Gpio/Tests.antt =====
-- A module of three lines that answers every request and keeps what it was asked.
use greybus.Base.{
  ℕ, ◌≡◌, ◌<◌, refl, true, some, List, [], ◌∷◌, if◌then◌else◌, ◌==◌, arith, replicate,
}
use greybus.Base.Monad.{Returns, ◌>>=◌}
use greybus.Errno.{Errno, success}
use greybus.Sync.{Serve, answered, received}
use greybus.Gpio.{
  Controller, Line, cleared, ask, direction_output, direction_out_operation, then_change, change,
  bit, byte,
}
use greybus.Gpio.Kind
use greybus.Gpio.Cache.{IsValid, Kept, ask-Kept}
use greybus.Gpio.Irq.{Change, mask, unmask, set_type, irq_calls, bus_sync_unlock}
use greybus.Gpio.Pending.{put}
use greybus.Gpio.Unlock.{settled, asked, sent, bus_sync_unlock-irq_calls}
use greybus.Gpio.Setup.{Event, Private, Kernel, connection_init}
use greybus.Gpio.Life.{Started, connection_init-Started}

-- The requests, the last first.
abbrev Log : Type 0
Log = List (ℕ × List ℕ)

abbrev serve : Serve Log
serve kind payload log =
    (answered success (if kind == Kind.line_count then 2 ∷ [] else []), (kind, payload) ∷ log)

abbrev controller : Controller
controller = record { line_max = 2; lines = replicate 3 cleared }

controller-IsValid : IsValid controller
controller-IsValid = record { bounded = ground arith; sized = refl }

abbrev changes : List Change
changes = set_type 1 ∷ mask ∷ set_type 9 ∷ set_type 3 ∷ unmask ∷ []

ask-Kept_example :
    Returns {A = Errno}
      (λ e s. IsValid s.0 × Kept 1 controller e s.0)
      (ask serve (direction_output 257 5) (controller, []))
ask-Kept_example =
    ask-Kept serve (direction_output 257 5) controller [] controller-IsValid (ground arith)

bus_sync_unlock-irq_calls_example :
    (irq_calls 1 changes >>= λ _. bus_sync_unlock serve 1) (controller, [])
    ≡ some (success, (put 1 (settled changes cleared) controller, asked serve (sent 1 changes) []))
bus_sync_unlock-irq_calls_example =
    bus_sync_unlock-irq_calls serve 1 changes controller [] cleared refl refl refl

abbrev kernel : Kernel
kernel = record {
  has_controller = true;
  has_memory = true;
  gpiochip_add = success;
  has_domain = true;
  create_mapping = λ n. n;
}

small : byte (received 1 (serve Kind.line_count [] []).0).1 < 256
unfolding received
small = ground arith

connection_init-Started_example :
    (x : (Errno × Private) × List Event) × (r' : Log) × ((connection_init serve kernel []
        ≡ some (x, r'))
      × Started kernel x)
connection_init-Started_example = connection_init-Started serve kernel [] small

-- One request for the type that was last supported, and one for the mask.
asked_once :
    asked serve (greybus.Gpio.Unlock.sent 1 changes) []
    ≡ (Kind.irq_unmask, 1 ∷ []) ∷ (Kind.irq_type, 1 ∷ 3 ∷ []) ∷ []
unfolding asked greybus.Gpio.Pending.last_type greybus.Gpio.Pending.last_mask
    greybus.Gpio.Irq.irq_type_of
asked_once = refl
