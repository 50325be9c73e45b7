-- ===== src/Bundle/Match.antt =====
-- Which entry of a driver's table matches a bundle.
use greybus.Base.{
  ◌≡◌, refl, inl, inr, true, false, Option, none, some, List, [], ◌∷◌, ◌++◌, arith, All, Bool-cases,
  ap,
}
use greybus.Bundle.{
  Bundle, BundleId, match_vendor, match_product, match_serial, match_class, match_one_id, is_entry,
  match_id,
}

-- Each field that the flags name is that of the bundle.
pub record Matches (b : Bundle) (i : BundleId) : Type 0 where
  pub vendor : match_vendor i ≡ true → i.vendor ≡ b.vendor
  pub product : match_product i ≡ true → i.product ≡ b.product
  pub serial : match_serial i ≡ true → i.unique_id ≡ b.unique_id
  pub class : match_class i ≡ true → i.class ≡ b.class

match_one_id-Matches : (b : Bundle) (i : BundleId) → match_one_id b i ≡ true → Matches b i
unfolding match_one_id
match_one_id-Matches b i e = record {
  vendor = λ f. ground arith;
  product = λ f. ground arith;
  serial = λ f. ground arith;
  class = λ f. ground arith;
}

Matches-match_one_id : (b : Bundle) (i : BundleId) → Matches b i → match_one_id b i ≡ true
unfolding match_one_id
Matches-match_one_id b i m = ground (arith, m.vendor, m.product, m.serial, m.class)

-- The first entry that matches, if there is one.
abbrev pub IsFirst : Bundle → List BundleId → Option BundleId → Type 0
IsFirst b is none = All (λ i. Matches b i → ⊥) is
IsFirst b is (some i) =
    (before : List BundleId) × (after : List BundleId) × (is ≡ before ++ i ∷ after)
    × Matches b i
    × All (λ j. Matches b j → ⊥) before

-- In a table that has an end the search does not fault, and gives the first entry before the end each
-- of whose flagged fields is that of the bundle, or none if there is no such entry.
pub match_id-IsFirst :
    (b : Bundle) (is rest : List BundleId) (last : BundleId)
    → All (λ i. is_entry i ≡ true) is
    → is_entry last ≡ false
    → (found : Option BundleId) × (match_id b (is ++ last ∷ rest) ≡ some found) × IsFirst b is found
unfolding match_id
match_id-IsFirst b [] rest last a e = (none, rw e refl, tt)
match_id-IsFirst b (i ∷ is) rest last (y, a) e = elim (Bool-cases (match_one_id b i)) [
  | inl t ↦ (some i, rw (y, t) refl, ([], is, refl, match_one_id-Matches b i t, tt))
  | inr f ↦
      let unlike : Matches b i → ⊥ = λ m. absurd (ground (arith, Matches-match_one_id b i m)) in
      let (found, g, first) = match_id-IsFirst b is rest last a e in
      (found, rw (y, f) g, further b i is found unlike first)
]
  where
    further :
        (b : Bundle) (i : BundleId) (is : List BundleId) (found : Option BundleId)
        → (Matches b i → ⊥)
        → IsFirst b is found
        → IsFirst b (i ∷ is) found
    further b i is none unlike first = (unlike, first)
    further b i is (some j) unlike (before, after, same, m, none_before) =
        (i ∷ before, after, ap (◌∷◌ i) same, m, (unlike, none_before))
