-- ===== src/Spi/Kind.antt =====
-- The types of the SPI protocol's requests, greybus_protocols.h.
use greybus.Base.{ℕ}

abbrev pub mode : ℕ
mode = 0x02

abbrev pub flags : ℕ
flags = 0x03

abbrev pub bits_per_word_mask : ℕ
bits_per_word_mask = 0x04

abbrev pub num_chipselect : ℕ
num_chipselect = 0x05
