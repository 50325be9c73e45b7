-- ===== src/Gpio/Kind.antt =====
-- The types of the GPIO protocol's requests, and of its interrupts, greybus_protocols.h.
use greybus.Base.{ℕ}

abbrev pub line_count : ℕ
line_count = 0x02

abbrev pub activate : ℕ
activate = 0x03

abbrev pub deactivate : ℕ
deactivate = 0x04

abbrev pub get_direction : ℕ
get_direction = 0x05

abbrev pub direction_in : ℕ
direction_in = 0x06

abbrev pub direction_out : ℕ
direction_out = 0x07

abbrev pub get_value : ℕ
get_value = 0x08

abbrev pub set_value : ℕ
set_value = 0x09

abbrev pub set_debounce : ℕ
set_debounce = 0x0a

abbrev pub irq_type : ℕ
irq_type = 0x0b

abbrev pub irq_mask : ℕ
irq_mask = 0x0c

abbrev pub irq_unmask : ℕ
irq_unmask = 0x0d

abbrev pub irq_event : ℕ
irq_event = 0x0e

abbrev pub irq_type_none : ℕ
irq_type_none = 0x00

abbrev pub irq_type_edge_rising : ℕ
irq_type_edge_rising = 0x01

abbrev pub irq_type_edge_falling : ℕ
irq_type_edge_falling = 0x02

abbrev pub irq_type_edge_both : ℕ
irq_type_edge_both = 0x03

abbrev pub irq_type_level_high : ℕ
irq_type_level_high = 0x04

abbrev pub irq_type_level_low : ℕ
irq_type_level_low = 0x08
