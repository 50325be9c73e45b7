-- ===== src/Protocol/Count.antt =====
-- Use counts: gb_protocol_get, gb_protocol_put and gb_protocol_deregister.
use greybus.Base.{
  ℕ, zero, suc, min, ◌+◌, ◌-◌, ◌≤◌, ◌<◌, ◌≡◌, refl, inl, inr, ◌↔◌, Bool, true, false, none, some,
  List, [], ◌∷◌, arith, ap, All, Option-cases, get_elem?, is_some, subst, ◌∙◌,
}
use greybus.Protocol.{
  Protocol, compare_entry, find, delete, deregister, count_up, count_down, modify, get, put,
  count_at, u8_max,
}
use greybus.Protocol.Find.{find-Is}
use greybus.Protocol.Order.{
  Is, Ahead, IsSorted, Is-of_same, stop_of_After, Verdict-cases, After-of_Ahead,
}

-- A function that leaves the id and version of each entry alone.
abbrev Keeps : (Protocol → Protocol) → Type 0
Keeps f = (p : Protocol) → Is (f p) p.id p.major p.minor

count_up-Keeps : Keeps count_up
unfolding count_up
count_up-Keeps p = ground arith

count_down-Keeps : Keeps count_down
unfolding count_down
count_down-Keeps p = ground arith

module _ (f : Protocol → Protocol) (keeps : Keeps f) where
  compare_entry-Keeps :
      (p : Protocol) (id major minor : ℕ)
      → compare_entry (f p) id major minor ≡ compare_entry p id major minor
  unfolding compare_entry
  compare_entry-Keeps p id major minor = ground (arith, keeps p)

  find-modify :
      (i : ℕ) (ps : List Protocol) (id major minor : ℕ)
      → find (modify f i ps) id major minor ≡ find ps id major minor
  unfolding find modify
  find-modify i [] id major minor = refl
  find-modify zero (p ∷ ps) id major minor = ground (arith, compare_entry-Keeps p id major minor)
  find-modify (suc i) (p ∷ ps) id major minor = ground (arith, find-modify i ps id major minor)

  get_elem?-modify :
      (i : ℕ) (ps : List Protocol) {p : Protocol}
      → get_elem? ps i ≡ some p
      → get_elem? (modify f i ps) i ≡ some (f p)
  unfolding modify
  get_elem?-modify i [] e = ground arith
  get_elem?-modify zero (q ∷ ps) e = ground arith
  get_elem?-modify (suc i) (q ∷ ps) e = get_elem?-modify i ps e

modify-modify :
    (f g : Protocol → Protocol) (i : ℕ) (ps : List Protocol) {p : Protocol}
    → get_elem? ps i ≡ some p
    → g (f p) ≡ p
    → modify g i (modify f i ps) ≡ ps
unfolding modify
modify-modify f g i [] e h = refl
modify-modify f g zero (q ∷ ps) e h = ground arith
modify-modify f g (suc i) (q ∷ ps) e h = ap (◌∷◌ q) (modify-modify f g i ps e h)

count-count_up :
    (p : Protocol) (n : ℕ) → p.count ≡ n → n ≤ u8_max → (count_up p).count ≡ min (n + 1) u8_max
unfolding count_up
count-count_up p n e h = ground arith

count-count_down : (p : Protocol) (n : ℕ) → p.count ≡ n → (count_down p).count ≡ n - 1
unfolding count_down
count-count_down p n e = ground arith

count_down-count_up : (p : Protocol) → p.count < u8_max → count_down (count_up p) ≡ p
unfolding count_down count_up
count_down-count_up p h = ground arith

get-some :
    (live : ℕ → Bool) (ps : List Protocol) (id major minor : ℕ) {i : ℕ}
    → (get live ps id major minor).0 ≡ some i
    → (find ps id major minor ≡ some i) × ((get live ps id major minor).1 ≡ modify count_up i ps)
unfolding get
get-some live ps id major minor e = ground arith

-- The entry that gb_protocol_get counted has the id and version.
pub get-Is :
    (live : ℕ → Bool) (ps : List Protocol) (id major minor : ℕ) {i : ℕ}
    → (get live ps id major minor).0 ≡ some i
    → (p : Protocol) × (get_elem? ps i ≡ some p)
      × (get_elem? (get live ps id major minor).1 i ≡ some (count_up p))
      × Is (count_up p) id major minor
get-Is live ps id major minor {i} e =
    let (found, after) = get-some live ps id major minor e in
    let (p, at, is) = find-Is ps id major minor found in
    let kept = count_up-Keeps p in
    (p, at, rw after (get_elem?-modify count_up count_up-Keeps i ps at), omega arith)

-- A reference that gb_protocol_get took below the limit of the count is given back by
-- gb_protocol_put: the registry is as before.
pub put-get :
    (live : ℕ → Bool) (ps : List Protocol) (id major minor : ℕ) {i : ℕ} {p : Protocol}
    → (get live ps id major minor).0 ≡ some i
    → get_elem? ps i ≡ some p
    → p.count < u8_max
    → put (get live ps id major minor).1 id major minor ≡ ps
unfolding put
put-get live ps id major minor {i} {p} e at small =
    let (found, after) = get-some live ps id major minor e in
    rw after (
      ground (
        arith,
        find-modify count_up count_up-Keeps i ps id major minor,
        modify-modify count_up count_down i ps at (count_down-count_up p small),
      ))

-- The registry after `n` calls of gb_protocol_get, and after `n` of gb_protocol_put.
pub gets : (ℕ → Bool) → ℕ → List Protocol → ℕ → ℕ → ℕ → List Protocol
gets live zero ps id major minor = ps
gets live (suc n) ps id major minor = (get live (gets live n ps id major minor) id major minor).1

pub puts : ℕ → List Protocol → ℕ → ℕ → ℕ → List Protocol
puts zero ps id major minor = ps
puts (suc n) ps id major minor = put (puts n ps id major minor) id major minor

-- At position `i` stands the entry of this id and version, with this count.
record Holds (ps : List Protocol) (id major minor i n : ℕ) : Type 0 where
  found : find ps id major minor ≡ some i
  counted : (p : Protocol) × (get_elem? ps i ≡ some p) × (p.count ≡ n)
  small : n ≤ u8_max

Holds-modify :
    (f : Protocol → Protocol) (keeps : Keeps f) (ps : List Protocol) (id major minor i n m : ℕ)
    → ((p : Protocol) → p.count ≡ n → (f p).count ≡ m)
    → m ≤ u8_max
    → Holds ps id major minor i n
    → Holds (modify f i ps) id major minor i m
Holds-modify f keeps ps id major minor i n m count le h =
    let (p, at, e) = h.counted in
    record {
      found = find-modify f keeps i ps id major minor ∙ h.found;
      counted = (f p, get_elem?-modify f keeps i ps at, count p e);
      small = le;
    }

Holds-get :
    (live : ℕ → Bool) (ps : List Protocol) (id major minor i n : ℕ)
    → ((o : ℕ) → live o ≡ true)
    → Holds ps id major minor i n
    → Holds (get live ps id major minor).1 id major minor i (min (n + 1) u8_max)
unfolding get
Holds-get live ps id major minor i n alive h =
    let (p, at, e) = h.counted in
    rw (h.found, get, at, alive p.owner)
      (Holds-modify count_up count_up-Keeps ps id major minor i n (min (n + 1) u8_max)
        (λ q k. count-count_up q n k h.small) (omega arith) h)

Holds-put :
    (ps : List Protocol) (id major minor i n : ℕ)
    → Holds ps id major minor i n
    → Holds (put ps id major minor) id major minor i (n - 1)
unfolding put
Holds-put ps id major minor i n h =
    let small = h.small in
    rw (h.found, put)
      (Holds-modify count_down count_down-Keeps ps id major minor i n (n - 1)
        (λ q k. count-count_down q n k) (omega arith) h)

Holds-gets :
    (live : ℕ → Bool) (k : ℕ) (ps : List Protocol) (id major minor i n : ℕ)
    → ((o : ℕ) → live o ≡ true)
    → Holds ps id major minor i n
    → Holds (gets live k ps id major minor) id major minor i (min (n + k) u8_max)
unfolding gets
Holds-gets live zero ps id major minor i n alive h =
    let small = h.small in subst (Holds ps id major minor i) (omega arith) h
Holds-gets live (suc k) ps id major minor i n alive h =
    subst (Holds (gets live (suc k) ps id major minor) id major minor i) (omega arith) (
      Holds-get live (gets live k ps id major minor) id major minor i (min (n + k) u8_max) alive
        (Holds-gets live k ps id major minor i n alive h))

Holds-puts :
    (k : ℕ) (ps : List Protocol) (id major minor i n : ℕ)
    → Holds ps id major minor i n
    → Holds (puts k ps id major minor) id major minor i (n - k)
unfolding puts
Holds-puts zero ps id major minor i n h = subst (Holds ps id major minor i) (omega arith) h
Holds-puts (suc k) ps id major minor i n h =
    subst (Holds (puts (suc k) ps id major minor) id major minor i) (omega arith) (
      Holds-put (puts k ps id major minor) id major minor i (n - k)
        (Holds-puts k ps id major minor i n h))

-- The count does not remember users beyond its limit: when `n` users, 255 at least, have taken an
-- unused protocol and 255 of them have given it back, gb_protocol_deregister removes it, though
-- `n - 255` users remain.
pub deregister_while_used :
    (live : ℕ → Bool) (ps : List Protocol) (id major minor i n : ℕ) {p : Protocol}
    → ((o : ℕ) → live o ≡ true)
    → find ps id major minor ≡ some i
    → get_elem? ps i ≡ some p
    → p.count ≡ 0
    → u8_max ≤ n
    → (deregister (puts u8_max (gets live n ps id major minor) id major minor) id major minor).0
      ≡ true
unfolding deregister
deregister_while_used live ps id major minor i n {p} alive found at unused many =
    let before : Holds ps id major minor i 0 = record {
      found = found;
      counted = (p, at, unused);
      small = omega arith;
    } in
    let after =
      Holds-puts u8_max (gets live n ps id major minor) id major minor i _
        (Holds-gets live n ps id major minor i 0 alive before) in
    let (q, here, count) = after.counted in rw (after.found, deregister) (ground arith)

find_past :
    (q : Protocol) (ps : List Protocol) (id major minor : ℕ)
    → All (Ahead q) ps
    → Is q id major minor
    → find ps id major minor ≡ none
unfolding find
find_past q [] id major minor h k = refl
find_past q (p ∷ ps) id major minor h k =
    ground (arith, stop_of_After p id major minor (After-of_Ahead q p id major minor k h.0))

delete-find :
    (ps : List Protocol) (id major minor : ℕ) {i : ℕ}
    → IsSorted ps
    → find ps id major minor ≡ some i
    → find (delete i ps) id major minor ≡ none
unfolding find delete
delete-find [] id major minor h e = ground arith
delete-find (q ∷ ps) id major minor {i} h e =
    elim (Verdict-cases (compare_entry q id major minor)) [
      | inl v ↦ elim (Option-cases (find ps id major minor)) [
        | inl n ↦ ground arith
        | inr (j, r) ↦
            let here : i ≡ suc j = ground arith in
            rw here (ground (arith, delete-find ps id major minor h.1 r))
      ]
      | inr (inl v) ↦ ground arith
      | inr (inr v) ↦
          let here : i ≡ 0 = ground arith in
          rw here (find_past q ps id major minor h.0 (Is-of_same q id major minor v))
    ]

-- In a sorted registry gb_protocol_deregister succeeds exactly on an entry that nobody uses; then a search does not
-- find it any more. Otherwise the registry stays as it was.
pub deregister_lem :
    (ps : List Protocol) (id major minor : ℕ)
    → IsSorted ps
    → ((deregister ps id major minor).0 ≡ true
        → (is_some (find ps id major minor) ≡ true)
          × (find (deregister ps id major minor).1 id major minor ≡ none))
      × ((deregister ps id major minor).0 ≡ false → (deregister ps id major minor).1 ≡ ps)
      × ((i : ℕ)
          → find ps id major minor ≡ some i
          → ((deregister ps id major minor).0 ≡ true) ↔ (count_at ps i ≡ 0))
unfolding deregister
deregister_lem ps id major minor h = elim (Option-cases (find ps id major minor)) [
  | inl n ↦ (λ e. ground arith, λ e. ground arith, λ i f. ground arith)
  | inr (j, r) ↦
      let gone = delete-find ps id major minor h r in
      (λ e. ground arith, λ e. ground arith, λ i f. ground arith)
]
