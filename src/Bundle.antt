-- ===== src/Bundle.antt =====
-- Bundles, bundle.c: those of an interface, and the ids of a driver that match one. `none` is a memory
-- fault.
pub mod Match
mod Tests
use greybus.Base.{
  ℕ, ◌/◌, ◌%◌, ◌^◌, Bool, true, false, Option, none, some, List, [], ◌∷◌, ◌==◌, not, ◌&&◌, ◌||◌,
  if◌then◌else◌, is_some,
}
use greybus.Errno.{Errno, is_success}

-- `struct gb_bundle`, with the three fields of its interface that are compared.
pub record Bundle : Type 0 where
  pub id : ℕ
  pub class : ℕ
  pub vendor : ℕ
  pub product : ℕ
  pub unique_id : ℕ

-- `struct greybus_bundle_id`
pub record BundleId : Type 0 where
  pub match_flags : ℕ
  pub vendor : ℕ
  pub product : ℕ
  pub unique_id : ℕ
  pub class : ℕ
  pub driver_info : ℕ

-- A bit of the flags.
abbrev pub match_vendor : BundleId → Bool
match_vendor i = i.match_flags % 2 == 1

abbrev pub match_product : BundleId → Bool
match_product i = i.match_flags / 2 % 2 == 1

abbrev pub match_serial : BundleId → Bool
match_serial i = i.match_flags / 4 % 2 == 1

abbrev pub match_class : BundleId → Bool
match_class i = i.match_flags / 8 % 2 == 1

-- gb_bundle_match_one_id
unfoldable pub match_one_id : Bundle → BundleId → Bool
match_one_id b i =
    if match_vendor i && not (i.vendor == b.vendor)
    then false
    else if match_product i && not (i.product == b.product)
    then false
    else if match_serial i && not (i.unique_id == b.unique_id)
    then false
    else if match_class i && not (i.class == b.class)
    then false
    else true

-- The condition of the loop of gb_bundle_match_id.
unfoldable pub is_entry : BundleId → Bool
is_entry i =
    not (i.vendor == 0)
    || not (i.product == 0)
    || not (i.unique_id == 0)
    || not (i.class == 0)
    || not (i.driver_info == 0)

-- The loop of gb_bundle_match_id over the entries from a place on; a table without an end is read past
-- its memory.
unfoldable pub match_id : Bundle → List BundleId → Option (Option BundleId)
match_id b [] = none
match_id b (i ∷ is) =
    let rest = match_id b is in
    if not (is_entry i) then some none else if match_one_id b i then some (some i) else rest

-- gb_bundle_match_id, of a table or a null pointer.
unfoldable pub match_table : Bundle → Option (List BundleId) → Option (Option BundleId)
match_table b none = some none
match_table b (some is) = match_id b is

-- gb_bundle_find
unfoldable pub find : ℕ → List Bundle → Option Bundle
find bundle_id [] = none
find bundle_id (b ∷ bs) = if b.id == bundle_id then some b else find bundle_id bs

-- gb_bundle_create: the bundle or a null pointer, and the bundles of the interface. A failure of
-- device_add faults, as put_device and kfree then free the bundle twice.
unfoldable pub create_bundle :
    Bool → Errno → Bundle → List Bundle → Option (Option Bundle × List Bundle)
create_bundle has_memory device_add b bs =
    if is_some (find b.id bs)
    then some (none, bs)
    else if not has_memory
    then some (none, bs)
    else if not (is_success device_add)
    then none
    else some (some b, b ∷ bs)
