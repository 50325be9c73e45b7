-- ===== src/Endo/Ribs.antt =====
-- The rib masks: cross ribs, heights, and the reversal of a mask.
use greybus.Base.{
  ℕ, zero, suc, ◌+◌, ◌-◌, ◌/◌, ◌%◌, ◌^◌, ◌≤◌, ◌<◌, ◌≡◌, refl, ◌⊎◌, Bool, true, false, some, arith,
  ◌==◌, ltb, leb, not, ◌&&◌, ◌||◌, if◌then◌else◌, inl, inr, subst, Option-cases,
}
use greybus.Base.Table.{table, table-row}
use greybus.Endo.{
  Layout, single_cross_rib, modules_oversized, reverse_bits, back_ribs, ribs_medium, ribs_mini,
  validate_id, size_ribs, front_ribs, left_mask, right_mask,
}

-- Whether there is a rib at a position, and at how many of the first `n` positions two masks have one.
unfoldable pub has_rib : ℕ → ℕ → Bool
has_rib mask i = mask / 2 ^ i % 2 == 1

unfoldable pub common : ℕ → ℕ → ℕ → ℕ
unfolding has_rib
common zero left right = 0
common (suc n) left right =
    (if has_rib left n && has_rib right n then 1 else 0) + common n left right

eq_bool : Bool → Bool → Bool
eq_bool true b = b
eq_bool false b = not b

eq_bool_sound : (a b : Bool) → eq_bool a b ≡ true → a ≡ b
unfolding eq_bool
eq_bool_sound a b h = ground arith

cross_table :
    table 64 (λ l. table 64 (λ r. eq_bool (single_cross_rib l r) (leb (common 6 l r) 1))) ≡ true
unfolding table eq_bool single_cross_rib common
cross_table = refl

-- For masks of six bits the test for a power of two finds out whether at most one rib spans the whole width.
pub single_cross_rib_lem :
    (left right : ℕ)
    → left < 64
    → right < 64
    → single_cross_rib left right ≡ leb (common 6 left right) 1
single_cross_rib_lem left right h k =
    eq_bool_sound _ _ (table-row 64 _ right (table-row 64 _ left cross_table h) k)

-- Of each pair of neighbours among the first `n` positions one has a rib.
unfoldable pub ribbed : ℕ → ℕ → Bool
unfolding has_rib
ribbed zero mask = true
ribbed (suc zero) mask = true
ribbed (suc (suc n)) mask = (has_rib mask n || has_rib mask (suc n)) && ribbed (suc n) mask

height_table :
    table 8 (λ n. table 256 (λ r. eq_bool (modules_oversized (n + 1) r) (not (ribbed (n + 1) r))))
    ≡ true
unfolding table eq_bool modules_oversized ribbed
height_table = refl

-- For at most eight positions and masks of eight bits, a side is refused for its heights exactly when two neighbouring positions have no rib.
pub modules_oversized_lem :
    (n mask : ℕ) → n < 8 → mask < 256 → modules_oversized (n + 1) mask ≡ not (ribbed (n + 1) mask)
modules_oversized_lem n mask h k =
    eq_bool_sound _ _ (table-row 256 _ mask (table-row 8 _ n height_table h) k)

reverse_table :
    table 8 (λ n. table 256 (λ v.
      not (ltb v (2 ^ (n + 1)))
      || (reverse_bits (reverse_bits v (n + 1)) (n + 1) == v
          && ltb (reverse_bits v (n + 1)) (2 ^ (n + 1))
          && table
              (n + 1)
              (λ i. eq_bool (has_rib (reverse_bits v (n + 1)) i) (has_rib v (n - i))))))
    ≡ true
unfolding table eq_bool has_rib reverse_bits
reverse_table = refl

-- For a mask within one to eight positions, reverse_bits mirrors the positions, stays within them, and undoes itself.
pub reverse_bits_lem :
    (n v : ℕ)
    → n < 8
    → v < 2 ^ (n + 1)
    → v < 256
    → (reverse_bits (reverse_bits v (n + 1)) (n + 1) ≡ v)
      × (reverse_bits v (n + 1) < 2 ^ (n + 1))
      × ((i : ℕ) → i < n + 1 → has_rib (reverse_bits v (n + 1)) i ≡ has_rib v (n - i))
reverse_bits_lem n v h k s =
    let row = table-row 256 _ v (table-row 8 _ n reverse_table h) s in
    let in_range : ltb v (2 ^ (n + 1)) ≡ true = ground arith in
    (
      ground arith,
      ground arith,
      λ i lt. eq_bool_sound _ _ (
          table-row (n + 1) (λ j. eq_bool (has_rib (reverse_bits v (n + 1)) j) (has_rib v (n - j)))
            i (ground arith) lt),
    )

-- What gb_endo_validate_id promises of a layout, with the right mask as in the id.
pub record IsValid (id : ℕ) (l : Layout) : Type 0 where
  pub size : (l.max_ribs ≡ 4) ⊎ ((l.max_ribs ≡ 5) ⊎ (l.max_ribs ≡ 6))
  pub left : l.left_ribs ≡ left_mask id l.max_ribs
  pub right : l.right_ribs ≡ reverse_bits (right_mask id l.max_ribs) l.max_ribs
  pub crossed : single_cross_rib (left_mask id l.max_ribs) (right_mask id l.max_ribs) ≡ true
  pub left_height : modules_oversized l.max_ribs (left_mask id l.max_ribs) ≡ false
  pub right_height : modules_oversized l.max_ribs (right_mask id l.max_ribs) ≡ false
  pub canonical : (l.max_ribs ≡ ribs_medium) ⊎ (l.right_ribs ≤ l.left_ribs)
  pub front : l.front_ribs < 7

size_ribs_lem : (id : ℕ) {m : ℕ} → size_ribs id ≡ some m → (m ≡ 4) ⊎ ((m ≡ 5) ⊎ (m ≡ 6))
unfolding size_ribs
size_ribs_lem id h = ground arith

front_ribs-lt : (mini : Bool) (id : ℕ) {f : ℕ} → front_ribs mini id ≡ some f → f < 7
unfolding front_ribs
front_ribs-lt mini id h = ground arith

back_ribs_lem :
    (m left right : ℕ) {l r : ℕ}
    → back_ribs m left right ≡ some (l, r)
    → (l ≡ left)
      × (r ≡ reverse_bits right m)
      × (single_cross_rib left right ≡ true)
      × (modules_oversized m left ≡ false)
      × (modules_oversized m right ≡ false)
      × ((m ≡ ribs_medium) ⊎ (r ≤ l))
unfolding back_ribs
back_ribs_lem m left right h = ground arith

-- An accepted id has one of three sizes, at most one cross rib, no module of more than two units on
-- its back, and is the canonical one of its two rotations.
pub validate_id-IsValid : (id : ℕ) {l : Layout} → validate_id id ≡ some l → IsValid id l
unfolding validate_id
validate_id-IsValid id {l} h = elim (Option-cases (size_ribs id)) [
  | inl e ↦ ground arith
  | inr (m, e) ↦ elim (Option-cases (back_ribs m (left_mask id m) (right_mask id m))) [
    | inl b ↦ ground arith
    | inr ((left, right), b) ↦ elim (Option-cases (front_ribs (m == ribs_mini) id)) [
      | inl f ↦ ground arith
      | inr (front, f) ↦
          let (x, y, z, u, v, w) = back_ribs_lem m (left_mask id m) (right_mask id m) b in
          let same : ◌≡◌ {A = Layout}
              (record { front_ribs = front; left_ribs = left; right_ribs = right; max_ribs = m })
              l =
            ground arith in
          subst (IsValid id) same (record {
            size = size_ribs_lem id e;
            left = x;
            right = y;
            crossed = z;
            left_height = u;
            right_height = v;
            canonical = w;
            front = front_ribs-lt (m == ribs_mini) id f;
          })
    ]
  ]
]
