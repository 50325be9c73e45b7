-- ===== src/Endo.antt =====
-- The layout of an endoskeleton, endo.c and endo.h: which ids are valid, and which module an
-- interface belongs to. Masks are numbers; `bit_and` is `&`.
pub mod Ribs
pub mod Modules
mod Tests
use Prim.Native.Nat.{bit_and, bit_or, bit_xor}
use greybus.Base.{
  ℕ, zero, suc, ◌+◌, ◌-◌, ◌*◌, ◌/◌, ◌%◌, ◌^◌, Bool, true, false, Option, none, some, List, [], ◌∷◌,
  ◌==◌, ltb, not, ◌&&◌, if◌then◌else◌,
}

-- `struct endo_layout`
pub record Layout : Type 0 where
  pub front_ribs : ℕ
  pub left_ribs : ℕ
  pub right_ribs : ℕ
  pub max_ribs : ℕ

abbrev pub ribs_mini : ℕ
ribs_mini = 4

abbrev pub ribs_medium : ℕ
ribs_medium = 5

abbrev pub ribs_large : ℕ
ribs_large = 6

-- `for (i = 0; i < count - 1; i++)`: the rounds left, and `i`.
unfoldable pub oversized_from : ℕ → ℕ → ℕ → Bool
oversized_from zero i mask = false
oversized_from (suc n) i mask =
    let rest = oversized_from n (i + 1) mask in if bit_and mask (3 * 2 ^ i) == 0 then true else rest

-- modules_oversized
unfoldable pub modules_oversized : ℕ → ℕ → Bool
unfolding oversized_from
modules_oversized count mask = oversized_from (count - 1) 0 mask

-- The loop of reverse_bits, on fuel; the masks are u8.
unfoldable pub reverse_loop : ℕ → ℕ → ℕ → ℕ → ℕ → ℕ
reverse_loop zero value value_mask result result_mask = result
reverse_loop (suc fuel) value value_mask result result_mask =
    if not (value == 0) && not (result_mask == 0)
    then (let hit = not (bit_and value value_mask == 0) in
        reverse_loop fuel (if hit then bit_xor value value_mask else value) (value_mask * 2 % 256)
          (if hit then bit_or result result_mask else result) (result_mask / 2))
    else result

-- reverse_bits. A u8 mask is shifted out after eight rounds.
unfoldable pub reverse_bits : ℕ → ℕ → ℕ
unfolding reverse_loop
reverse_bits value bits = reverse_loop 9 value 1 0 (2 ^ (bits - 1) % 256)

-- single_cross_rib: `span & (span - 1)` is zero.
unfoldable pub single_cross_rib : ℕ → ℕ → Bool
single_cross_rib left_ribs right_ribs =
    let span = bit_and left_ribs right_ribs in bit_and span (span - 1) == 0

-- validate_front_ribs: the front ribs of an id, for a mini endo or another.
unfoldable pub front_ribs : Bool → ℕ → Option ℕ
front_ribs mini endo_id =
    let front_mask = endo_id / 2 ^ 13 in
    if front_mask == 1
    then some 0
    else if front_mask == 2
    then some 1
    else if front_mask == 3
    then some 4
    else if front_mask == 4
    then some (if mini then 2 else 3)
    else if front_mask == 5
    then some (if mini then 2 else 6)
    else if front_mask == 6
    then some 5
    else none

-- validate_back_ribs after the extraction of the two masks: the ribs of the layout.
unfoldable pub back_ribs : ℕ → ℕ → ℕ → Option (ℕ × ℕ)
back_ribs max_ribs left right =
    if not (single_cross_rib left right)
    then none
    else if modules_oversized max_ribs left
    then none
    else if modules_oversized max_ribs right
    then none
    else if not (max_ribs == ribs_medium) && ltb left (reverse_bits right max_ribs)
    then none
    else some (left, reverse_bits right max_ribs)

-- endo_back_left_ribs and endo_back_right_ribs; `& ((1 << ribs) - 1)` is a remainder.
abbrev pub left_mask : ℕ → ℕ → ℕ
left_mask id ribs = id / 2 ^ ribs % 2 ^ ribs

abbrev pub right_mask : ℕ → ℕ → ℕ
right_mask id ribs = id % 2 ^ ribs

-- The three tests of gb_endo_validate_id on the size.
unfoldable pub size_ribs : ℕ → Option ℕ
size_ribs id =
    if not (bit_and id 0x1000 == 0)
    then some ribs_large
    else if not (bit_and id 0x0400 == 0)
    then some ribs_medium
    else if not (bit_and id 0x0100 == 0)
    then some ribs_mini
    else none

-- gb_endo_validate_id: the layout, or -EINVAL.
unfoldable pub validate_id : ℕ → Option Layout
validate_id id = elim (size_ribs id) [
  | none ↦ none
  | some m ↦ elim (back_ribs m (left_mask id m) (right_mask id m)) [
    | none ↦ none
    | some (l, r) ↦ elim (front_ribs (m == ribs_mini) id) [
      | none ↦ none
      | some f ↦ some (record { front_ribs = f; left_ribs = l; right_ribs = r; max_ribs = m })
    ]
  ]
]

-- max_endo_interface_id
abbrev pub max_interface_id : Layout → ℕ
max_interface_id l = 4 + (l.max_ribs + 1) * 2

-- `while ((rib_mask >>= 1) != 0 && !(mask & rib_mask)) --interface_id;`, on fuel.
unfoldable pub lower : ℕ → ℕ → ℕ → ℕ → ℕ
lower zero mask rib_mask id = id
lower (suc fuel) mask rib_mask id =
    let rib = rib_mask / 2 in
    let rest = lower fuel mask rib (id - 1) in
    if rib == 0 then id else if bit_and mask rib == 0 then rest else id

-- The mask of the side that an interface is on, and its place there.
abbrev pub side : Layout → ℕ → ℕ × ℕ
side l iid =
    if ltb iid (l.max_ribs + 1)
    then (l.left_ribs, iid)
    else if ltb iid (2 * (l.max_ribs + 1))
    then (l.right_ribs, iid - (l.max_ribs + 1))
    else (l.front_ribs, iid - 2 * (l.max_ribs + 1))

-- endo_get_module_id. The mask of the place has one bit, which the loop shifts out.
unfoldable pub get_module_id : Layout → ℕ → ℕ
get_module_id l interface_id =
    if interface_id == 0
    then 0
    else (let (mask, iid) = side l (interface_id - 1) in
        lower (suc iid) mask (2 ^ iid) interface_id)

-- The loop of create_modules: the rounds left, the interface, and the last module. The result is
-- the ids handed to gb_module_create, in order.
unfoldable pub modules_from : ℕ → Layout → ℕ → ℕ → List ℕ
modules_from zero l interface_id prev = []
modules_from (suc n) l interface_id prev =
    let module_id = get_module_id l interface_id in
    let same = modules_from n l (interface_id + 1) prev in
    let next = modules_from n l (interface_id + 1) module_id in
    if module_id == 0 then same else if module_id == prev then same else module_id ∷ next

-- create_modules, where each module can be created.
unfoldable pub create_modules : Layout → List ℕ
create_modules l = modules_from (max_interface_id l) l 1 0
