-- ===== src/Protocol.antt =====
-- The registry of protocols, protocol.c and protocol.h: a global list, searched by id and version,
-- with a use count for each entry. A position in the list stands for a `struct gb_protocol *`.
-- The callbacks of a protocol are arguments of the code that calls them.
pub mod Order
pub mod Find
pub mod Count
mod Tests
use greybus.Base.{
  ℕ, zero, suc, ◌+◌, ◌-◌, ◌≡◌, Bool, true, false, Option, none, some, List, [], ◌∷◌, ltb, ◌==◌,
  if◌then◌else◌, set, get_elem?,
}
use mathlib.Core.Option

-- `struct gb_protocol`; `id`, `major`, `minor` and `count` are u8.
pub record Protocol : Type 0 where
  pub id : ℕ
  pub major : ℕ
  pub minor : ℕ
  pub count : ℕ
  pub owner : ℕ

abbrev pub u8_max : ℕ
u8_max = 255

-- How the search treats an entry: go on (`continue`), give up (`break`), or stop at it.
pub data Verdict : Type 0 where
  skip stop same : Verdict

-- The six tests in the body of both searches.
unfoldable pub compare_entry : Protocol → ℕ → ℕ → ℕ → Verdict
compare_entry p id major minor =
    if ltb p.id id
    then skip
    else if ltb id p.id
    then stop
    else if ltb major p.major
    then skip
    else if ltb p.major major
    then stop
    else if ltb minor p.minor
    then skip
    else if ltb p.minor minor
    then stop
    else same

-- gb_protocol_find: the position of the entry.
unfoldable pub find : List Protocol → ℕ → ℕ → ℕ → Option ℕ
find [] id major minor = none
find (p ∷ ps) id major minor = elim (compare_entry p id major minor) [
  | skip ↦ Option.map suc (find ps id major minor)
  | stop ↦ none
  | same ↦ some 0
]

-- The locked section of __gb_protocol_register; `none` is -EEXIST.
pub insert : Protocol → List Protocol → Option (List Protocol)
insert p [] = some (p ∷ [])
insert p (q ∷ qs) = elim (compare_entry q p.id p.major p.minor) [
  | skip ↦ Option.map (◌∷◌ q) (insert p qs)
  | stop ↦ some (p ∷ q ∷ qs)
  | same ↦ none
]

-- `list_del` of the entry at a position.
pub delete : ℕ → List Protocol → List Protocol
delete i [] = []
delete zero (p ∷ ps) = ps
delete (suc i) (p ∷ ps) = p ∷ delete i ps

abbrev pub count_at : List Protocol → ℕ → ℕ
count_at ps i = elim (get_elem? ps i) [ none ↦ 0 | some p ↦ p.count ]

-- gb_protocol_deregister of a protocol with this id and version: the result, and the list after.
pub deregister : List Protocol → ℕ → ℕ → ℕ → Bool × List Protocol
deregister ps id major minor = elim (find ps id major minor) [
  | none ↦ (false, ps)
  | some i ↦ if count_at ps i == 0 then (true, delete i ps) else (false, ps)
]

-- `if (protocol_count != U8_MAX) protocol->count++`
unfoldable pub count_up : Protocol → Protocol
count_up p = if p.count == u8_max then p else record p { count = p.count + 1 }

-- `if (protocol_count) protocol->count--`
unfoldable pub count_down : Protocol → Protocol
count_down p = if p.count == 0 then p else record p { count = p.count - 1 }

unfoldable pub modify : (Protocol → Protocol) → ℕ → List Protocol → List Protocol
modify f i [] = []
modify f zero (p ∷ ps) = f p ∷ ps
modify f (suc i) (p ∷ ps) = p ∷ modify f i ps

-- gb_protocol_get. `live` answers `try_module_get` for the owner of the entry.
unfoldable pub get : (ℕ → Bool) → List Protocol → ℕ → ℕ → ℕ → Option ℕ × List Protocol
get live ps id major minor = elim (find ps id major minor) [
  | none ↦ (none, ps)
  | some i ↦ elim (get_elem? ps i) [
    | none ↦ (none, ps)
    | some p ↦ if live p.owner then (some i, modify count_up i ps) else (none, ps)
  ]
]

-- gb_protocol_put of a protocol with this id and version. `module_put` has no effect here.
unfoldable pub put : List Protocol → ℕ → ℕ → ℕ → List Protocol
put ps id major minor = elim (find ps id major minor) [
  | none ↦ ps
  | some i ↦ modify count_down i ps
]
