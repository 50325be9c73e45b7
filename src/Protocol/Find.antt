-- ===== src/Protocol/Find.antt =====
-- Searching the sorted registry, and registering in it.
use greybus.Base.{
  ℕ, zero, suc, ◌≡◌, refl, inl, inr, ◌↔◌, true, Option, none, some, List, [], ◌∷◌, arith, All,
  All-mono, Option-cases, get_elem?, is_some, subst,
}
use greybus.Protocol.{Protocol, skip, stop, same, compare_entry, find, insert}
use greybus.Protocol.Order.{
  Is, Ahead, IsSorted, Before-of_skip, After-of_stop, Is-of_same, skip_of_Before, stop_of_After,
  same_of_Is, Verdict-cases, Ahead-trans, Ahead-of_After,
}

module _ (p : Protocol) (P : Protocol → Type 0) (hp : P p) where
  insert-All :
      (ps : List Protocol) {qs : List Protocol} → All P ps → insert p ps ≡ some qs → All P qs
  unfolding insert
  insert-All [] h e = ground arith
  insert-All (q ∷ ps) {qs} h e = elim (Option-cases (insert p ps)) [
    | inl n ↦ ground arith
    | inr (rs, r) ↦ ground (arith, insert-All ps {qs = rs} h.1 r)
  ]

-- Registering keeps a sorted registry sorted.
pub insert-IsSorted :
    (p : Protocol) (ps : List Protocol) {qs : List Protocol}
    → IsSorted ps
    → insert p ps ≡ some qs
    → IsSorted qs
unfolding insert
insert-IsSorted p [] h e = ground arith
insert-IsSorted p (q ∷ ps) {qs} h e = elim (Verdict-cases (compare_entry q p.id p.major p.minor)) [
  | inl v ↦ elim (Option-cases (insert p ps)) [
    | inl n ↦ ground arith
    | inr (rs, r) ↦ ground (
      arith,
      insert-All p (Ahead q) (Before-of_skip q p.id p.major p.minor v) ps h.0 r,
      insert-IsSorted p ps h.1 r,
    )
  ]
  | inr (inl v) ↦
      let ahead = Ahead-of_After p q (After-of_stop q p.id p.major p.minor v) in
      let before = All-mono (Ahead q) (Ahead p) ps (λ r k. Ahead-trans p q r ahead k) h.0 in
      ground arith
  | inr (inr v) ↦ ground arith
]

-- What `find` returns is a position that holds the id and version.
pub find-Is :
    (ps : List Protocol) (id major minor : ℕ) {i : ℕ}
    → find ps id major minor ≡ some i
    → (p : Protocol) × (get_elem? ps i ≡ some p) × Is p id major minor
unfolding find
find-Is [] id major minor e = ground arith
find-Is (q ∷ ps) id major minor e = elim (Verdict-cases (compare_entry q id major minor)) [
  | inl v ↦ elim (Option-cases (find ps id major minor)) [
    | inl n ↦ ground arith
    | inr (j, r) ↦ let (p, at, here) = find-Is ps id major minor r in (p, ground arith, here)
  ]
  | inr (inl v) ↦ ground arith
  | inr (inr v) ↦ (q, ground arith, Is-of_same q id major minor v)
]

pub All-get_elem? :
    (P : Protocol → Type 0) (ps : List Protocol) (i : ℕ) {p : Protocol}
    → All P ps
    → get_elem? ps i ≡ some p
    → P p
All-get_elem? P [] i h e = ground arith
All-get_elem? P (q ∷ ps) zero h e = subst P (ground arith) h.0
All-get_elem? P (q ∷ ps) (suc i) h e = All-get_elem? P ps i h.1 e

find-of_Is :
    (ps : List Protocol) (id major minor i : ℕ) {p : Protocol}
    → IsSorted ps
    → get_elem? ps i ≡ some p
    → Is p id major minor
    → find ps id major minor ≡ some i
unfolding find
find-of_Is [] id major minor i h e k = ground arith
find-of_Is (q ∷ ps) id major minor zero {p} h e k = ground (arith, same_of_Is q id major minor)
find-of_Is (q ∷ ps) id major minor (suc i) {p} h e k =
    let ahead = All-get_elem? (Ahead q) ps i h.0 e in
    ground (arith, skip_of_Before q id major minor, find-of_Is ps id major minor i h.1 e k)

-- In a sorted registry `find` returns a position exactly when the entry there has the id and
-- version: stopping early loses nothing.
pub find_iff :
    (ps : List Protocol) (id major minor i : ℕ)
    → IsSorted ps
    → (find ps id major minor ≡ some i)
      ↔ ((p : Protocol) × (get_elem? ps i ≡ some p) × Is p id major minor)
find_iff ps id major minor i h =
    (find-Is ps id major minor, λ (p, at, here). find-of_Is ps id major minor i h at here)

-- The entry that a search ends at.
abbrev pub entry : List Protocol → ℕ → ℕ → ℕ → Option Protocol
entry ps id major minor = elim (find ps id major minor) [ none ↦ none | some i ↦ get_elem? ps i ]

pub entry-nil : (id major minor : ℕ) → entry [] id major minor ≡ none
unfolding find
entry-nil id major minor = refl

pub entry-cons :
    (q : Protocol) (ps : List Protocol) (id major minor : ℕ)
    → entry (q ∷ ps) id major minor ≡ (elim (compare_entry q id major minor) [
      | skip ↦ entry ps id major minor
      | stop ↦ none
      | same ↦ some q
    ])
unfolding find
entry-cons q ps id major minor = ground arith

-- Registering is refused exactly when the registry has an entry of this id and version.
pub insert-none_iff :
    (p : Protocol) (ps : List Protocol)
    → (insert p ps ≡ none) ↔ (is_some (find ps p.id p.major p.minor) ≡ true)
unfolding insert find
insert-none_iff p [] = ground arith
insert-none_iff p (q ∷ ps) = ground (arith, insert-none_iff p ps)

-- After registering `p` in a sorted registry a search for its id and version ends at `p`, and any other search ends at
-- the entry that it ended at before.
pub entry-insert :
    (p : Protocol) (ps : List Protocol) (id major minor : ℕ) {qs : List Protocol}
    → IsSorted ps
    → insert p ps ≡ some qs
    → (Is p id major minor → entry qs id major minor ≡ some p)
      × ((Is p id major minor → ⊥) → entry qs id major minor ≡ entry ps id major minor)
unfolding insert
entry-insert p [] id major minor h e = (
  λ k. ground (arith, entry-cons p [] id major minor, same_of_Is p id major minor),
  λ k. ground (
    arith,
    entry-cons p [] id major minor,
    entry-nil id major minor,
    Is-of_same p id major minor,
  ),
)
entry-insert p (q ∷ ps) id major minor {qs} h e =
    elim (Verdict-cases (compare_entry q p.id p.major p.minor)) [
      | inl v ↦ elim (Option-cases (insert p ps)) [
        | inl n ↦ ground arith
        | inr (rs, r) ↦
            let ih = entry-insert p ps id major minor h.1 r in
            let before = Before-of_skip q p.id p.major p.minor v in
            let old = entry-cons q ps id major minor in
            let new = entry-cons q rs id major minor in
            (
              λ k. ground (arith, skip_of_Before q id major minor, ih.0 k),
              λ k. ground (arith, ih.1 k),
            )
      ]
      | inr (inl v) ↦
          let after = After-of_stop q p.id p.major p.minor v in
          let old = entry-cons q ps id major minor in
          let new = entry-cons p (q ∷ ps) id major minor in
          (
            λ k. ground (arith, same_of_Is p id major minor),
            λ k. ground (
              arith,
              Is-of_same p id major minor,
              After-of_stop p id major minor,
              stop_of_After q id major minor,
            ),
          )
      | inr (inr v) ↦ ground arith
    ]
