-- ===== src/Loopback/Summary.antt =====
-- What the statistics say of the values that were added since a reset.
use greybus.Base.{
  ℕ, ◌+◌, ◌%◌, ◌^◌, ◌≤◌, ◌<◌, ◌≡◌, refl, ◌⊎◌, inl, inr, true, List, [], ◌∷◌, length, arith, All,
  All-mono, has, ap,
}
use greybus.Loopback.{Stats, reset, u32_max, update_stats, calc_latency, nsec_per_day}

-- The statistics after values were added, the last one first.
abbrev pub collect : List ℕ → Stats
collect [] = reset
collect (v ∷ vs) = update_stats (collect vs) v

abbrev pub total : List ℕ → ℕ
total [] = 0
total (v ∷ vs) = v + total vs

-- The bounds hold for every value and are values themselves, and the sum and the count are those of
-- the values, in 64 and 32 bits.
pub record IsSummary (vs : List ℕ) (s : Stats) : Type 0 where
  pub bounds : All (λ v. (s.min ≤ v) × (v ≤ s.max)) vs
  pub lowest : (vs ≡ []) ⊎ (has s.min vs ≡ true)
  pub highest : (vs ≡ []) ⊎ (has s.max vs ≡ true)
  pub sum : s.sum ≡ total vs % 2 ^ 64
  pub count : s.count ≡ length vs % 2 ^ 32

-- Since a reset the statistics summarise the values that were added, each of 32 bits: the minimum and
-- the maximum bound them and, if there is a value, are values themselves, and the sum and the count
-- are theirs modulo 2^64 and 2^32.
pub collect-IsSummary : (vs : List ℕ) → All (λ v. v ≤ u32_max) vs → IsSummary vs (collect vs)
unfolding update_stats
collect-IsSummary [] a = record {
  bounds = tt;
  lowest = inl refl;
  highest = inl refl;
  sum = refl;
  count = refl;
}
collect-IsSummary (v ∷ vs) (small, a) =
    let s = collect-IsSummary vs a in
    record {
      bounds = (
        (ground arith, ground arith),
        All-mono _
            (λ w. ((update_stats (collect vs) v).min ≤ w) × (w ≤ (update_stats (collect vs) v).max))
            vs (λ w (low, high). (ground (arith, low), ground (arith, high))) s.bounds,
      );
      lowest = inr (lowest s.lowest);
      highest = inr (highest s.highest);
      sum = omega (arith, s.sum);
      count = omega (arith, s.count);
    }
  where
    lowest :
        (vs ≡ []) ⊎ (has (collect vs).min vs ≡ true)
        → has (update_stats (collect vs) v).min (v ∷ vs) ≡ true
    lowest (inl e) =
        let m : (collect vs).min ≡ u32_max = ap (λ vs. (collect vs).min) e in
        ground (arith, m, small)
    lowest (inr h) = ground (arith, h)

    highest :
        (vs ≡ []) ⊎ (has (collect vs).max vs ≡ true)
        → has (update_stats (collect vs) v).max (v ∷ vs) ≡ true
    highest (inl e) =
        let m : (collect vs).max ≡ 0 = ap (λ vs. (collect vs).max) e in ground (arith, m)
    highest (inr h) = ground (arith, h)

-- If the clock did not wrap the latency is the time between the two; if it did not advance, what is
-- taken for it is a day and the time by which it went back.
calc_latency_lem :
    (t1 t2 : ℕ)
    → t1 < nsec_per_day
    → t2 < nsec_per_day
    → (t1 < t2 → t1 + calc_latency t1 t2 ≡ t2)
      × (t2 ≤ t1 → t2 + calc_latency t1 t2 ≡ nsec_per_day + t1)
unfolding calc_latency
calc_latency_lem t1 t2 a b = (λ h. ground arith, λ h. ground arith)
