-- ===== src/Endo/Modules.antt =====
-- Modules and interfaces: endo_get_module_id and create_modules.
use Prim.Native.Nat.{bit_and}
use native.Mathlib.Nat.{pow-suc}
use greybus.Base.{
  ℕ, zero, suc, ◌+◌, ◌-◌, ◌*◌, ◌/◌, ◌%◌, ◌^◌, ◌≤◌, ◌<◌, ◌≡◌, refl, ◌⊎◌, inl, inr, true, false, some,
  arith, ◌==◌, ltb, leb, not, ◌&&◌, ◌||◌, if◌then◌else◌, Bool-cases,
}
use greybus.Base.Table.{table, table-row}
use greybus.Endo.{
  Layout, lower, get_module_id, side, validate_id, modules_oversized, reverse_bits, left_mask,
  right_mask,
}
use greybus.Endo.Ribs.{validate_id-IsValid}

-- How many positions below `k` have no rib, down to the first that has one.
unfoldable pub above : ℕ → ℕ → ℕ
above mask zero = 0
above mask (suc k) = if bit_and mask (2 ^ k) == 0 then suc (above mask k) else 0

above-le : (mask k : ℕ) → above mask k ≤ k
unfolding above
above-le mask zero = omega arith
above-le mask (suc k) = ground (arith, above-le mask k)

half-pow : (k : ℕ) → 2 ^ suc k / 2 ≡ 2 ^ k
half-pow k = omega (arith, pow-suc 2 k)

pow_pos : (k : ℕ) → 0 < 2 ^ k
pow_pos zero = omega arith
pow_pos (suc k) = omega (arith, pow-suc 2 k, pow_pos k)

-- The loop has enough fuel, and goes down to the rib next above the interface.
lower_lem : (fuel mask k id : ℕ) → k < fuel → lower fuel mask (2 ^ k) id ≡ id - above mask k
unfolding lower above
lower_lem zero mask k id h = elim h [ ]
lower_lem (suc fuel) mask zero id h = omega arith
lower_lem (suc fuel) mask (suc k) id h =
    rw (half-pow k) (ground (arith, pow_pos k, lower_lem fuel mask k (id - 1)))

-- The module of an interface starts at it or below, after the next rib above it on its side.
pub get_module_id-above :
    (l : Layout) (id : ℕ)
    → 0 < id
    → let (mask, place) = side l (id - 1) in get_module_id l id ≡ id - above mask place
unfolding get_module_id
get_module_id-above l id h =
    let (mask, place) = side l (id - 1) in
    ground (arith, lower_lem (suc place) mask place id (omega arith))

-- An interface other than 0 has a module, which starts at this interface or below it.
pub get_module_id_range :
    (l : Layout) (id : ℕ) → 0 < id → (0 < get_module_id l id) × (get_module_id l id ≤ id)
get_module_id_range l id h =
    let (mask, place) = side l (id - 1) in
    ground (arith, get_module_id-above l id h, above-le mask place)

height_table :
    table 7 (λ m. table 64 (λ mask.
      not (ltb mask (2 ^ m))
      || modules_oversized m mask
      || (table (m + 1) (λ k. leb (above mask k) 1)
          && table (m + 1) (λ k. leb (above (reverse_bits mask m) k) 1))))
    ≡ true
unfolding table modules_oversized above reverse_bits
height_table = refl

above-le-one :
    (m mask k : ℕ)
    → (m ≡ 4) ⊎ ((m ≡ 5) ⊎ (m ≡ 6))
    → mask < 2 ^ m
    → modules_oversized m mask ≡ false
    → k < m + 1
    → (above mask k ≤ 1) × (above (reverse_bits mask m) k ≤ 1)
above-le-one m mask k size h e lt =
    let small : mask < 64 = pow_small m mask size h in
    let known = table-row 64 _ mask (table-row 7 _ m height_table (omega arith)) small in
    let both : (table (m + 1) (λ j. leb (above mask j) 1) ≡ true)
        × (table (m + 1) (λ j. leb (above (reverse_bits mask m) j) 1) ≡ true) =
      ground arith in
    let x = table-row (m + 1) _ k both.0 lt in
    let y = table-row (m + 1) _ k both.1 lt in (ground arith, ground arith)
  where
    pow_small : (m mask : ℕ) → (m ≡ 4) ⊎ ((m ≡ 5) ⊎ (m ≡ 6)) → mask < 2 ^ m → mask < 64
    pow_small m mask (inl a) h = let k = rw a at h in omega arith
    pow_small m mask (inr (inl a)) h = let k = rw a at h in omega arith
    pow_small m mask (inr (inr a)) h = rw a at h

mod-lt-pow : (x m : ℕ) → x % 2 ^ m < 2 ^ m
mod-lt-pow x m = omega (arith, pow_pos m)

-- On the back of an accepted endo no module is higher than two units: the module of an interface
-- starts at this interface or at the one before it, and never at interface 0.
pub back_module_height :
    (id : ℕ) (i : ℕ) {l : Layout}
    → validate_id id ≡ some l
    → 0 < i
    → i ≤ 2 * (l.max_ribs + 1)
    → (0 < get_module_id l i) × ((get_module_id l i ≤ i) × (i ≤ get_module_id l i + 1))
back_module_height id i {l} h pos le =
    let v = validate_id-IsValid id h in
    let m = l.max_ribs in
    let start = get_module_id-above l i pos in
    let range = get_module_id_range l i pos in
    elim (Bool-cases (ltb (i - 1) (m + 1))) [
      | inl e ↦
          let left =
            above-le-one m (left_mask id m) (i - 1) v.size (mod-lt-pow (id / 2 ^ m) m) v.left_height
              (ground arith) in
          let start' : get_module_id l i ≡ i - above (left_mask id m) (i - 1) =
            rw (← v.left) (ground arith) in
          (range.0, (range.1, omega (arith, left.0)))
      | inr e ↦
          let right =
            above-le-one m (right_mask id m) (i - 1 - (m + 1)) v.size (mod-lt-pow id m)
              v.right_height (omega arith) in
          let start' : get_module_id l i
              ≡ i - above (reverse_bits (right_mask id m) m) (i - 1 - (m + 1)) =
            rw (← v.right) (ground arith) in
          (range.0, (range.1, omega (arith, right.1)))
    ]
