-- ===== src/Pwm/Tests.antt =====
-- A chip of four PWMs, and a module that accepts every request.
use greybus.Base.{ℕ, ◌≡◌, refl, arith, true, some, List, [], ◌∷◌, ◌==◌, if◌then◌else◌}
use greybus.Errno.{success}
use greybus.Sync.{Serve, answered, received}
use greybus.Pwm.{Chip, config, connection_init, count_operation}
use greybus.Pwm.Kind
use greybus.Pwm.Asked.{IsRegistered, Served, read, wanted, ask-Served}

abbrev serve : Serve (List ℕ)
serve kind payload log =
    (answered success (if kind == Kind.pwm_count then 3 ∷ [] else []), kind ∷ log)

abbrev chip : Chip
chip = record { pwm_max = 3; npwm = 4 }

started : connection_init serve true success [] ≡ some ((success, some chip), Kind.pwm_count ∷ [])
unfolding connection_init count_operation greybus.Sync.operation_sync greybus.Sync.received
started = refl

chip-IsRegistered : IsRegistered chip
chip-IsRegistered = record { bounded = ground arith; counted = refl }

ask-Served_example :
    (payload : List ℕ) × ((read Kind.config payload ≡ wanted (config 3 1000 70000))
      × Served serve (config 3 1000 70000) chip [] payload)
ask-Served_example = ask-Served serve (config 3 1000 70000) chip [] chip-IsRegistered (record {
  which = ground arith;
  duty = ground arith;
  period = ground arith;
  polarity = ground arith;
})
