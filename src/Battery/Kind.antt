-- ===== src/Battery/Kind.antt =====
-- The battery protocol's numbers, greybus_protocols.h.
use greybus.Base.{ℕ}

abbrev pub technology : ℕ
technology = 0x02

abbrev pub status : ℕ
status = 0x03

abbrev pub max_voltage : ℕ
max_voltage = 0x04

abbrev pub percent_capacity : ℕ
percent_capacity = 0x05

abbrev pub temperature : ℕ
temperature = 0x06

abbrev pub voltage : ℕ
voltage = 0x07

abbrev pub tech_nimh : ℕ
tech_nimh = 0x0001

abbrev pub tech_lion : ℕ
tech_lion = 0x0002

abbrev pub tech_lipo : ℕ
tech_lipo = 0x0003

abbrev pub tech_life : ℕ
tech_life = 0x0004

abbrev pub tech_nicd : ℕ
tech_nicd = 0x0005

abbrev pub tech_limn : ℕ
tech_limn = 0x0006

abbrev pub status_charging : ℕ
status_charging = 0x0001

abbrev pub status_discharging : ℕ
status_discharging = 0x0002

abbrev pub status_not_charging : ℕ
status_not_charging = 0x0003

abbrev pub status_full : ℕ
status_full = 0x0004
