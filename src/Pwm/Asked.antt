-- ===== src/Pwm/Asked.antt =====
-- A chip that was registered lets each of its PWMs through.
use greybus.Base.{
  ℕ, ◌+◌, ◌%◌, ◌<◌, ◌≡◌, refl, arith, Bool, true, false, Option, none, some, List, [], ◌∷◌, ltb,
  inl, inr, Bool-cases, get_or, ap, ◌∙◌,
}
use greybus.Base.Bytes.{le32, le32-bytes, byte0, byte1, byte2, byte3}
use greybus.Errno.{Errno, success, is_success}
use greybus.Sync.{Serve, received, operation_sync}
use greybus.Pwm.{
  Chip, Ask, request, free, enable, disable, config, set_polarity, ask, ask_one, activate_operation,
  deactivate_operation, config_operation, set_polarity_operation, enable_operation,
  disable_operation, count_operation, connection_init,
}
use greybus.Pwm.Kind

-- What a call asks of the module: the type of the request, and its fields, as numbers.
pub record Wanted : Type 0 where
  pub kind : ℕ
  pub which : ℕ
  pub duty : ℕ
  pub period : ℕ
  pub polarity : ℕ

-- A call without its other fields.
abbrev plain : ℕ → ℕ → Wanted
plain kind which = record { kind = kind; which = which; duty = 0; period = 0; polarity = 0 }

abbrev pub wanted : Ask → Wanted
wanted (request hwpwm) = plain Kind.activate hwpwm
wanted (free hwpwm) = plain Kind.deactivate hwpwm
wanted (enable hwpwm) = plain Kind.enable hwpwm
wanted (disable hwpwm) = plain Kind.disable hwpwm
wanted (config hwpwm duty period) = record {
  kind = Kind.config;
  which = hwpwm;
  duty = duty;
  period = period;
  polarity = 0;
}
wanted (set_polarity hwpwm polarity) = record {
  kind = Kind.polarity;
  which = hwpwm;
  duty = 0;
  period = 0;
  polarity = polarity;
}

-- What the other end reads off a request.
abbrev pub read : ℕ → List ℕ → Wanted
read kind (which ∷ []) = plain kind which
read kind (which ∷ polarity ∷ []) = record {
  kind = kind;
  which = which;
  duty = 0;
  period = 0;
  polarity = polarity;
}
read kind (which ∷ a ∷ b ∷ c ∷ d ∷ e ∷ f ∷ g ∷ h ∷ []) = record {
  kind = kind;
  which = which;
  duty = le32 a b c d;
  period = le32 e f g h;
  polarity = 0;
}
read kind _ = plain kind 0

-- A chip as gb_pwm_connection_init registers it.
pub record IsRegistered (c : Chip) : Type 0 where
  pub bounded : c.pwm_max < 256
  pub counted : c.npwm ≡ c.pwm_max + 1

-- The fields of a call fit in those of its request.
pub record Fits (c : Chip) (w : Wanted) : Type 0 where
  pub which : w.which < c.npwm
  pub duty : w.duty < 4294967296
  pub period : w.period < 4294967296
  pub polarity : w.polarity < 256

-- One request was served, and its result is the call's.
abbrev pub Served : {R : Type 0} → Serve R → Ask → Chip → R → List ℕ → Type 0
Served serve q c r payload =
    let (answer, r') = serve (wanted q).kind payload r in
    ask serve q (c, r) ≡ some ((received 0 answer).0, (c, r'))

ask_one_lem :
    {R : Type 0} (serve : Serve R) (kind which : ℕ) (fields : List ℕ) (c : Chip) (r : R)
    → IsRegistered c
    → which < c.npwm
    → (let (answer, r') = serve kind (which ∷ fields) r in
        ask_one serve kind (which % 256) fields (c, r) ≡ some ((received 0 answer).0, (c, r')))
unfolding ask_one operation_sync
ask_one_lem serve kind which fields c r v h =
    let same : which % 256 ≡ which = omega (arith, v.bounded, v.counted, h) in
    let known : ltb c.pwm_max which ≡ false = ground (arith, v.counted, h) in rw (same, known) refl

-- Each call on a PWM that a registered chip has, with fields that fit in its request, makes one
-- request of its type, from which the other end reads the PWM and what is asked of it as they were
-- given, and returns what is answered.
pub ask-Served :
    {R : Type 0} (serve : Serve R) (q : Ask) (c : Chip) (r : R)
    → IsRegistered c
    → Fits c (wanted q)
    → (payload : List ℕ) × ((read (wanted q).kind payload ≡ wanted q) × Served serve q c r payload)
unfolding ask activate_operation deactivate_operation config_operation set_polarity_operation
    enable_operation disable_operation
ask-Served serve (request n) c r v f = (n ∷ [], (refl, ask_one_lem serve _ n _ c r v f.which))
ask-Served serve (free n) c r v f = (n ∷ [], (refl, ask_one_lem serve _ n _ c r v f.which))
ask-Served serve (enable n) c r v f = (n ∷ [], (refl, ask_one_lem serve _ n _ c r v f.which))
ask-Served serve (disable n) c r v f = (n ∷ [], (refl, ask_one_lem serve _ n _ c r v f.which))
ask-Served serve (config n duty period) c r v f = (
  n
      ∷ byte0 duty
      ∷ byte1 duty
      ∷ byte2 duty
      ∷ byte3 duty
      ∷ byte0 period
      ∷ byte1 period
      ∷ byte2 period
      ∷ byte3 period
      ∷ [],
  (
    ap
          (λ d. record {
            kind = Kind.config;
            which = n;
            duty = d;
            period = le32 (byte0 period) (byte1 period) (byte2 period) (byte3 period);
            polarity = 0;
          })
          (le32-bytes duty f.duty)
        ∙ ap (λ p. record { kind = Kind.config; which = n; duty = duty; period = p; polarity = 0 })
            (le32-bytes period f.period),
    ask_one_lem serve _ n _ c r v f.which,
  ),
)
ask-Served serve (set_polarity n polarity) c r v f =
    let same : polarity % 256 ≡ polarity = omega (arith, f.polarity) in
    (
      n ∷ polarity % 256 ∷ [],
      (
        ap (λ p. record { kind = Kind.polarity; which = n; duty = 0; period = 0; polarity = p })
            same,
        ask_one_lem serve _ n _ c r v f.which,
      ),
    )

-- A start that succeeds registers such a chip.
abbrev Registered : Errno × Option Chip → Type 0
Registered (e, none) = is_success e ≡ false
Registered (e, some c) = (e ≡ success) × IsRegistered c

counted_chip :
    {R : Type 0} (serve : Serve R) (chip_add : Errno) (r : R)
    → is_success (received 1 (serve Kind.pwm_count [] r).0).0 ≡ true
    → is_success chip_add ≡ true
    → (let (answer, r') = serve Kind.pwm_count [] r in
        let n = get_or (received 1 answer).1 0 0 in
        connection_init serve true chip_add r
        ≡ some ((success, some (record { pwm_max = n; npwm = n + 1 })), r'))
unfolding connection_init count_operation operation_sync
counted_chip serve chip_add r y a = ground (arith, y, a)

-- The start of a connection does not fault; it succeeds exactly if it registers a chip with the PWMs
-- that were counted, if that number is a byte.
pub connection_init-Registered :
    {R : Type 0} (serve : Serve R) (has_chip : Bool) (chip_add : Errno) (r : R)
    → get_or (received 1 (serve Kind.pwm_count [] r).0).1 0 0 < 256
    → (x : Errno × Option Chip) × (r' : R) × ((connection_init serve has_chip chip_add r
          ≡ some (x, r'))
        × Registered x)
unfolding connection_init count_operation operation_sync
connection_init-Registered serve false chip_add r h = (_, _, (refl, refl))
connection_init-Registered serve true chip_add r h =
    elim (Bool-cases (is_success (received 1 (serve Kind.pwm_count [] r).0).0)) [
      | inr n ↦ (
        ((received 1 (serve Kind.pwm_count [] r).0).0, none),
        (serve Kind.pwm_count [] r).1,
        (ground (arith, n), n),
      )
      | inl y ↦ elim (Bool-cases (is_success chip_add)) [
        | inr n ↦ ((chip_add, none), (serve Kind.pwm_count [] r).1, (ground (arith, y, n), n))
        | inl a ↦ (
          _,
          _,
          (counted_chip serve chip_add r y a, (refl, record { bounded = h; counted = refl })),
        )
      ]
    ]
