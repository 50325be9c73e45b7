-- ===== src/Protocol/Tests.antt =====
-- A registry of three protocols, and the theorems at it.
use greybus.Base.{ℕ, ◌≡◌, refl, Bool, true, false, some, List, [], ◌∷◌, arith}
use greybus.Protocol.{Protocol, compare_entry, find, insert, deregister, count_up, modify, get}
use greybus.Protocol.Order.{Is, IsSorted}
use greybus.Protocol.Find.{entry, entry-insert}

abbrev protocol : ℕ → ℕ → ℕ → ℕ → Protocol
protocol id major minor count = record {
  id = id;
  major = major;
  minor = minor;
  count = count;
  owner = 7;
}

-- gpio 1.0 and 0.1, and uart 0.1, which is in use.
abbrev registry : List Protocol
registry = protocol 2 1 0 0 ∷ protocol 2 0 1 0 ∷ protocol 4 0 1 1 ∷ []

abbrev i2c : Protocol
i2c = protocol 3 0 1 0

abbrev with_i2c : List Protocol
with_i2c = protocol 2 1 0 0 ∷ protocol 2 0 1 0 ∷ i2c ∷ protocol 4 0 1 1 ∷ []

abbrev live : ℕ → Bool
live o = true

registry-IsSorted : IsSorted registry
registry-IsSorted = ground arith

insert-i2c : insert i2c registry ≡ some with_i2c
unfolding insert compare_entry
insert-i2c = refl

find_gpio : find registry 2 0 1 ≡ some 1
unfolding find compare_entry
find_gpio = refl

get_gpio : (get live registry 2 0 1).1 ≡ protocol 2 1 0 0 ∷ protocol 2 0 1 1 ∷ protocol 4 0 1 1 ∷ []
unfolding get find compare_entry modify count_up
get_gpio = refl

deregister_uart : (deregister registry 4 0 1).0 ≡ false
unfolding deregister find compare_entry
deregister_uart = refl

get_gpio_at : (get live registry 2 0 1).0 ≡ some 1
unfolding get find compare_entry
get_gpio_at = refl

entry-insert_example :
    (Is i2c 3 0 1 → entry with_i2c 3 0 1 ≡ some i2c)
    × ((Is i2c 3 0 1 → ⊥) → entry with_i2c 3 0 1 ≡ entry registry 3 0 1)
entry-insert_example = entry-insert i2c registry 3 0 1 registry-IsSorted insert-i2c
