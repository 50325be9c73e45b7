-- ===== src/Operation/Respond.antt =====
-- gb_operation_response_send as a whole.
use greybus.Base.{
  ℕ, ◌+◌, ◌≡◌, ◌⊎◌, Bool, true, false, Option, ◌&&◌, ◌||◌, not, is_some, if◌then◌else◌,
}
use greybus.Errno.{Errno, enomem, is_success}
use greybus.Operation.Message.{Message}
use greybus.Operation.State.{Operation, World, next_errno, is_enabled, ◌>>=◌}
use greybus.Operation.Effects.{Now}

-- No memory for a response that is wanted; or the operation with a response, if one is wanted.
abbrev Ready : ℕ → Operation → World → Bool → World → Type 0
Ready p o w false w' = Now p o w w' × (o.unidirectional ≡ false)
Ready p o w true w' =
    (x : Option Message) × Now p (record o { response = x }) w w'
    × (o.unidirectional ≡ false → is_some x ≡ true)

-- On every way out: the counts, and the result.
abbrev pub Responded : ℕ → Operation → World → Errno → Errno → Errno → World → Type 0
Responded p o w errno answer e w' =
    (o' : Operation) × Now p o' w w'
    × (o'.kref ≡ (if is_success e && not o.unidirectional then o.kref + 1 else o.kref))
    × (o'.active ≡ (if is_success e && not o.unidirectional then o.active + 1 else o.active))
    × (((e ≡ enomem) × (o'.errno ≡ o.errno) × (o.unidirectional ≡ false))
        ⊎ ((o'.errno ≡ (next_errno o.errno errno).0)
            × (is_success e ≡ (
                (next_errno o.errno errno).1
                && (o.unidirectional || (is_enabled w.state && is_success answer))))))
