-- ===== src/Endo/Tests.antt =====
-- A large endo, and the theorems at it.
use greybus.Base.{◌+◌, ◌≤◌, ◌<◌, ◌≡◌, refl, some, [], ◌∷◌, arith}
use greybus.Endo.{
  Layout, validate_id, size_ribs, back_ribs, front_ribs, single_cross_rib, modules_oversized,
  reverse_bits, get_module_id, lower, create_modules, modules_from,
}
use greybus.Endo.Modules.{back_module_height}

-- Front code 1, ribs 101010 on the left and 010101 on the right, read upwards.
abbrev large : Layout
large = record { front_ribs = 0; left_ribs = 0b101010; right_ribs = 0b101010; max_ribs = 6 }

accept_large : validate_id 0b0011_1010_1001_0101 ≡ some large
unfolding validate_id size_ribs back_ribs front_ribs single_cross_rib modules_oversized reverse_bits
accept_large = refl

modules_large : create_modules large ≡ 1 ∷ 3 ∷ 5 ∷ 7 ∷ 8 ∷ 10 ∷ 12 ∷ 14 ∷ 15 ∷ []
unfolding create_modules modules_from get_module_id lower
modules_large = refl

back_module_height_example :
    (0 < get_module_id large 4) × ((get_module_id large 4 ≤ 4) × (4 ≤ get_module_id large 4 + 1))
back_module_height_example =
    back_module_height 0b0011_1010_1001_0101 4 accept_large (omega arith) (omega arith)
