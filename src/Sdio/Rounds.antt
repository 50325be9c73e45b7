-- ===== src/Sdio/Rounds.antt =====
-- The pieces of an SDIO transfer are whole blocks.
use native.Mathlib.Nat.{
  add-mul, mul-le-mul_right, le_of_mul-le-mul_right, div-mul-le_self, le-div_iff_mul-le,
  div-le_self, one-mul,
}
use greybus.Base.{
  ℕ, min, ◌+◌, ◌*◌, ◌-◌, ◌/◌, ◌%◌, ◌^◌, ◌<◌, ◌≤◌, ◌≡◌, arith, ◌∙◌, ap, subst, false, ◌==◌, ==_ne,
}

split_mul : (n q b : ℕ) → q ≤ n → n * b ≡ q * b + (n - q) * b
split_mul n q b h = ap (λ m. m * b) (omega (arith, h)) ∙ add-mul q (n - q) b

-- Whole blocks of a rest that is whole blocks: there is one, and what is left is whole blocks.
pub whole_blocks :
    (n b max : ℕ)
    → 0 < b
    → b ≤ max
    → max < 65536
    → 0 < n
    → (let q = min (n * b) max / b % 2 ^ 16 in (0 < q) × (q ≤ n) × (n * b - q * b ≡ (n - q) * b))
whole_blocks n b max hb hm small hn =
    let q = min (n * b) max / b in
    let below : q * b ≤ min (n * b) max = div-mul-le_self (min (n * b) max) b in
    let some_block : b ≤ n * b = subst (λ x. x ≤ n * b) (one-mul b) (mul-le-mul_right b hn) in
    let one_block : 1 * b ≤ min (n * b) max = omega (arith, one-mul b, some_block) in
    let pos : 1 ≤ q = (le-div_iff_mul-le hb).1 one_block in
    let top : q ≤ n = le_of_mul-le-mul_right {m = q} {n = n} (omega (arith, below)) hb in
    let bound : q ≤ min (n * b) max = div-le_self (min (n * b) max) b in
    let fits : q % 2 ^ 16 ≡ q = omega (arith, bound) in
    rw fits (pos, top, omega (arith, split_mul n q b top))

pub some_left : (n b : ℕ) → 0 < b → 0 < n → (n * b == 0) ≡ false
some_left n b hb hn =
    let some_block : b ≤ n * b = subst (λ x. x ≤ n * b) (one-mul b) (mul-le-mul_right b hn) in
    ==_ne (n * b) 0 (omega (arith, some_block, hb))
