-- ===== src/Sdio/Kind.antt =====
-- The SDIO protocol's numbers, greybus_protocols.h, and the kernel's commands of one block.
use greybus.Base.{ℕ, Bool, ◌==◌, ◌||◌}

abbrev pub get_capabilities : ℕ
get_capabilities = 0x02

abbrev pub set_ios : ℕ
set_ios = 0x03

abbrev pub command : ℕ
command = 0x04

abbrev pub transfer : ℕ
transfer = 0x05

abbrev pub event : ℕ
event = 0x06

abbrev pub card_inserted : ℕ
card_inserted = 0x01

abbrev pub card_removed : ℕ
card_removed = 0x02

abbrev pub write_protected : ℕ
write_protected = 0x04

-- MMC_WRITE_BLOCK and MMC_READ_SINGLE_BLOCK, of the kernel.
abbrev pub mmc_write_block : ℕ
mmc_write_block = 24

abbrev pub mmc_read_single_block : ℕ
mmc_read_single_block = 17

-- single_op
abbrev pub is_single : ℕ → Bool
is_single opcode = opcode == mmc_write_block || opcode == mmc_read_single_block

abbrev pub cap_nonremovable : ℕ
cap_nonremovable = 0x00000001
