-- ===== src/Base/Monad.antt =====
-- Code that changes a state and may fault, and what it returns. `none` is a fault.
use mathlib.Core.Option.{Option, none, some}
use mathlib.Core.Path.{◌≡◌, ap}

-- A call on a state of type `S`.
abbrev pub Call : Type 0 → Type 0 → Type 0
Call S A = S → Option (A × S)

abbrev pub pure : {S A : Type 0} → A → Call S A
pure a w = some (a, w)

infixl 5 ◌>>=◌ ◌>>◌
abbrev pub ◌>>=◌ : {S A B : Type 0} → Call S A → (A → Call S B) → Call S B
◌>>=◌ m f w = elim (m w) [ none ↦ none | some (a, w') ↦ f a w' ]

abbrev pub ◌>>◌ : {S B : Type 0} → Call S (Unit {0}) → Call S B → Call S B
m >> k = m >>= λ _. k

-- The call returns, and what it returns and leaves satisfies `P`.
abbrev pub Returns : {S A : Type 0} → (A → S → Type 0) → Option (A × S) → Type 0
Returns P none = ⊥
Returns P (some (a, w)) = P a w

pub bind :
    {S A B : Type 0} (P : A → S → Type 0) (Q : B → S → Type 0) (r : Option (A × S))
    (f : A → Call S B)
    → Returns P r
    → ((a : A) (w : S) → P a w → Returns Q (f a w))
    → Returns Q (elim r [ none ↦ none | some (a, w) ↦ f a w ])
bind P Q none f h k = elim h [ ]
bind P Q (some (a, w)) f h k = k a w h

pub weaken :
    {S A : Type 0} (P Q : A → S → Type 0) (r : Option (A × S))
    → Returns P r
    → ((a : A) (w : S) → P a w → Q a w)
    → Returns Q r
weaken P Q none h k = elim h [ ]
weaken P Q (some (a, w)) h k = k a w h

-- What follows a call that returns.
pub then_lem :
    {S A B : Type 0} (m : Call S A) (f : A → Call S B) (s : S) (a : A) (s' : S)
    → m s ≡ some (a, s')
    → (m >>= f) s ≡ f a s'
then_lem {B} m f s a s' e =
    ap {B = Option (B × _)} (λ o. elim o [ none ↦ none | some (a, w) ↦ f a w ]) e

-- A call on another state.
pub inside :
    {S T A B : Type 0} (P : A → S → Type 0) (Q : B → T → Type 0) (r : Option (A × S))
    (f : A → S → Option (B × T))
    → Returns P r
    → ((a : A) (w : S) → P a w → Returns Q (f a w))
    → Returns Q (elim r [ none ↦ none | some (a, w) ↦ f a w ])
inside P Q none f h k = elim h [ ]
inside P Q (some (a, w)) f h k = k a w h
