-- ===== src/Protocol/Order.antt =====
-- The order of the registry: id upwards, then major and minor version downwards.
use greybus.Base.{ℕ, ◌<◌, ◌≡◌, ◌⊎◌, List, [], ◌∷◌, arith, All}
use greybus.Protocol.{Protocol, Verdict, skip, stop, same, compare_entry}

-- `p` stands before a protocol with this id and version.
abbrev pub Before : Protocol → ℕ → ℕ → ℕ → Type 0
Before p id major minor =
    (p.id < id)
    ⊎ (((p.id ≡ id) × (major < p.major)) ⊎ ((p.id ≡ id) × (p.major ≡ major) × (minor < p.minor)))

abbrev pub After : Protocol → ℕ → ℕ → ℕ → Type 0
After p id major minor =
    (id < p.id)
    ⊎ (((p.id ≡ id) × (p.major < major)) ⊎ ((p.id ≡ id) × (p.major ≡ major) × (p.minor < minor)))

abbrev pub Is : Protocol → ℕ → ℕ → ℕ → Type 0
Is p id major minor = (p.id ≡ id) × (p.major ≡ major) × (p.minor ≡ minor)

abbrev pub Ahead : Protocol → Protocol → Type 0
Ahead p q = Before p q.id q.major q.minor

abbrev pub IsSorted : List Protocol → Type 0
IsSorted [] = Unit
IsSorted (p ∷ ps) = All (Ahead p) ps × IsSorted ps

module _ (p : Protocol) (id major minor : ℕ) where
  pub Before-of_skip : compare_entry p id major minor ≡ skip → Before p id major minor
  unfolding compare_entry
  Before-of_skip h = ground arith

  pub After-of_stop : compare_entry p id major minor ≡ stop → After p id major minor
  unfolding compare_entry
  After-of_stop h = ground arith

  pub Is-of_same : compare_entry p id major minor ≡ same → Is p id major minor
  unfolding compare_entry
  Is-of_same h = ground arith

  pub skip_of_Before : Before p id major minor → compare_entry p id major minor ≡ skip
  unfolding compare_entry
  skip_of_Before h = ground arith

  pub stop_of_After : After p id major minor → compare_entry p id major minor ≡ stop
  unfolding compare_entry
  stop_of_After h = ground arith

  pub same_of_Is : Is p id major minor → compare_entry p id major minor ≡ same
  unfolding compare_entry
  same_of_Is h = ground arith

pub Verdict-cases : (v : Verdict) → (v ≡ skip) ⊎ ((v ≡ stop) ⊎ (v ≡ same))
Verdict-cases v = ground arith

pub Ahead-trans : (p q r : Protocol) → Ahead p q → Ahead q r → Ahead p r
Ahead-trans p q r h k = ground arith

pub Ahead-of_After : (p q : Protocol) → After q p.id p.major p.minor → Ahead p q
Ahead-of_After p q h = ground arith

pub After-of_Ahead :
    (p q : Protocol) (id major minor : ℕ) → Is p id major minor → Ahead p q → After q id major minor
After-of_Ahead p q id major minor h k = ground arith
