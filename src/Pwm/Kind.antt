-- ===== src/Pwm/Kind.antt =====
-- The types of the PWM protocol's requests, greybus_protocols.h.
use greybus.Base.{ℕ}

abbrev pub pwm_count : ℕ
pwm_count = 0x02

abbrev pub activate : ℕ
activate = 0x03

abbrev pub deactivate : ℕ
deactivate = 0x04

abbrev pub config : ℕ
config = 0x05

abbrev pub polarity : ℕ
polarity = 0x06

abbrev pub enable : ℕ
enable = 0x07

abbrev pub disable : ℕ
disable = 0x08
