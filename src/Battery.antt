-- ===== src/Battery.antt =====
-- The battery driver, battery.c: the properties of a power supply, each asked of the module.
pub mod Kind
pub mod Shown
mod Tests
use greybus.Base.{
  ℕ, Bool, Option, none, some, List, [], ◌∷◌, ◌-◌, ◌%◌, ◌^◌, ◌==◌, ltb, if◌then◌else◌, get_or,
}
use greybus.Base.Monad.{Call, pure, ◌>>=◌}
use greybus.Base.Bytes.{le32}
use greybus.Errno.{Errno, success, einval, is_success}
use greybus.Operation.Message.{le16}
use greybus.Sync.{Serve, operation_sync}
use greybus.Battery.Kind

-- An `int`: a number that is not negative, an error number, or another negative number, by its size.
pub data Intval : Type 0 where
  value : ℕ → Intval
  failure : Errno → Intval
  negative : ℕ → Intval

-- An u32 that is returned as an `int`.
unfoldable pub int_of : ℕ → Intval
int_of n = if ltb n (2 ^ 31) then value n else negative (2 ^ 32 - n)

-- The properties that the driver has, and any other.
pub data Property : Type 0 where
  technology status max_voltage capacity temperature voltage other_property : Property

-- The kernel's POWER_SUPPLY_TECHNOLOGY and POWER_SUPPLY_STATUS numbers.
pub data Tech : Type 0 where
  tech_unknown nimh lion lipo life nicd limn : Tech

abbrev pub tech_number : Tech → ℕ
tech_number tech_unknown = 0
tech_number nimh = 1
tech_number lion = 2
tech_number lipo = 3
tech_number life = 4
tech_number nicd = 5
tech_number limn = 6

-- The switch of get_tech.
unfoldable pub tech_of : ℕ → Tech
tech_of n =
    if n == Kind.tech_nimh
    then nimh
    else if n == Kind.tech_lion
    then lion
    else if n == Kind.tech_lipo
    then lipo
    else if n == Kind.tech_life
    then life
    else if n == Kind.tech_nicd
    then nicd
    else if n == Kind.tech_limn
    then limn
    else tech_unknown

pub data Status : Type 0 where
  status_unknown charging discharging not_charging full : Status

abbrev pub status_number : Status → ℕ
status_number status_unknown = 0
status_number charging = 1
status_number discharging = 2
status_number not_charging = 3
status_number full = 4

-- The switch of get_status.
unfoldable pub status_of : ℕ → Status
status_of n =
    if n == Kind.status_charging
    then charging
    else if n == Kind.status_discharging
    then discharging
    else if n == Kind.status_not_charging
    then not_charging
    else if n == Kind.status_full
    then full
    else status_unknown

abbrev pub word : List ℕ → ℕ
word bytes = le32 (get_or bytes 0 0) (get_or bytes 1 0) (get_or bytes 2 0) (get_or bytes 3 0)

abbrev pub half : List ℕ → ℕ
half bytes = le16 (get_or bytes 0 0) (get_or bytes 1 0)

-- The end of get_property: a negative value is returned too, as if it were an error.
unfoldable pub finish : Intval → Intval × Option Intval
finish (value n) = (value 0, some (value n))
finish x = (x, some x)

module _ {R : Type 0} (serve : Serve R) where
  -- A question to the module, and what is made of the response.
  unfoldable pub query : ℕ → ℕ → (List ℕ → Intval) → Call (Unit {0} × R) Intval
  query kind size make = operation_sync serve kind [] size >>= λ (ret, response).
      pure (if is_success ret then make response else failure ret)

  unfoldable pub get_tech : Call (Unit {0} × R) Intval
  get_tech = query Kind.technology 4 λ bytes. value (tech_number (tech_of (word bytes)))

  unfoldable pub get_status : Call (Unit {0} × R) Intval
  get_status = query Kind.status 2 λ bytes. value (status_number (status_of (half bytes)))

  unfoldable pub get_max_voltage : Call (Unit {0} × R) Intval
  get_max_voltage = query Kind.max_voltage 4 λ bytes. int_of (word bytes)

  unfoldable pub get_percent_capacity : Call (Unit {0} × R) Intval
  get_percent_capacity = query Kind.percent_capacity 4 λ bytes. int_of (word bytes)

  unfoldable pub get_temp : Call (Unit {0} × R) Intval
  get_temp = query Kind.temperature 4 λ bytes. int_of (word bytes)

  unfoldable pub get_voltage : Call (Unit {0} × R) Intval
  get_voltage = query Kind.voltage 4 λ bytes. int_of (word bytes)

  -- get_property: what is returned, and `val->intval`, if it is set.
  unfoldable pub get_property : Property → Call (Unit {0} × R) (Intval × Option Intval)
  get_property technology = get_tech >>= λ x. pure (finish x)
  get_property status = get_status >>= λ x. pure (finish x)
  get_property max_voltage = get_max_voltage >>= λ x. pure (finish x)
  get_property capacity = get_percent_capacity >>= λ x. pure (finish x)
  get_property temperature = get_temp >>= λ x. pure (finish x)
  get_property voltage = get_voltage >>= λ x. pure (finish x)
  get_property other_property = pure (failure einval, none)
