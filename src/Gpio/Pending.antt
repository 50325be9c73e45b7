-- ===== src/Gpio/Pending.antt =====
-- What the calls on a GPIO interrupt note in its line while the bus is locked.
use greybus.Base.{
  ℕ, zero, suc, Bool, true, false, Option, none, some, List, [], ◌∷◌, ◌≡◌, refl, sym, ap, ◌∙◌,
  arith, inl, inr, Option-cases, get_elem?, set,
}
use greybus.Base.Monad.{then_lem}
use greybus.Errno.{Errno, success, einval}
use greybus.Gpio.{Line, Controller, change}
use greybus.Gpio.Irq.{Change, mask, unmask, set_type, irq_type_of, irq_call, irq_calls}

pub get_elem?-set_self :
    {A : Type 0} (xs : List A) (i : ℕ) (a b : A)
    → get_elem? xs i ≡ some a
    → get_elem? (set xs i b) i ≡ some b
get_elem?-set_self [] i a b h = absurd (ground arith)
get_elem?-set_self (x ∷ xs) zero a b h = refl
get_elem?-set_self (x ∷ xs) (suc i) a b h = get_elem?-set_self xs i a b h

set-set : {A : Type 0} (xs : List A) (i : ℕ) (a b : A) → set (set xs i a) i b ≡ set xs i b
set-set [] i a b = refl
set-set (x ∷ xs) zero a b = refl
set-set (x ∷ xs) (suc i) a b = ap (◌∷◌ x) (set-set xs i a b)

set_own : {A : Type 0} (xs : List A) (i : ℕ) (a : A) → get_elem? xs i ≡ some a → set xs i a ≡ xs
set_own [] i a h = refl
set_own (x ∷ xs) zero a h = ground (arith, h)
set_own (x ∷ xs) (suc i) a h = ap (◌∷◌ x) (set_own xs i a h)

-- The controller with another line.
abbrev pub put : ℕ → Line → Controller → Controller
put which l c = record c { lines = set c.lines which l }

module _ (which : ℕ) (c : Controller) where
  pub put-put : (l l' : Line) → put which l' (put which l c) ≡ put which l' c
  put-put l l' = ap (λ ls. record c { lines = ls }) (set-set c.lines which l l')

  pub put_own : (l : Line) → get_elem? c.lines which ≡ some l → put which l c ≡ c
  put_own l h = ap (λ ls. record c { lines = ls }) (set_own c.lines which l h)

  module _ {R : Type 0} (r : R) where
    pub change_lem :
        (f : Line → Line) (l : Line)
        → get_elem? c.lines which ≡ some l
        → change which f (c, r) ≡ some (success, (put which (f l) c, r))
    unfolding change
    change_lem f l e = ground (arith, e)

-- What a call notes in the line.
unfoldable pub noted : Change → Line → Line
noted mask l = record l { masked = true; masked_pending = true }
noted unmask l = record l { masked = false; masked_pending = true }
noted (set_type type) l = elim (irq_type_of type) [
  | none ↦ l
  | some t ↦ record l { irq_type = t; irq_type_pending = true }
]

unfoldable pub all_noted : List Change → Line → Line
all_noted [] l = l
all_noted (k ∷ ks) l = all_noted ks (noted k l)

-- What a call returns.
unfoldable pub result : Change → Errno
result mask = success
result unmask = success
result (set_type type) = elim (irq_type_of type) [ none ↦ einval | some _ ↦ success ]

irq_call_lem :
    {R : Type 0} (which : ℕ) (k : Change) (c : Controller) (r : R) (l : Line)
    → get_elem? c.lines which ≡ some l
    → irq_call which k (c, r) ≡ some (result k, (put which (noted k l) c, r))
unfolding irq_call noted result
irq_call_lem which mask c r l e = change_lem which c r _ l e
irq_call_lem which unmask c r l e = change_lem which c r _ l e
irq_call_lem which (set_type type) c r l e = elim (Option-cases (irq_type_of type)) [
  | inl n ↦
      rw (n, irq_call, noted, result) (ap (λ c. some (einval, (c, r))) (sym (put_own which c l e)))
  | inr (t, y) ↦ rw (y, irq_call, noted, result) (change_lem which c r _ l e)
]

pub irq_calls_lem :
    {R : Type 0} (which : ℕ) (ks : List Change) (c : Controller) (r : R) (l : Line)
    → get_elem? c.lines which ≡ some l
    → irq_calls which ks (c, r) ≡ some (success, (put which (all_noted ks l) c, r))
unfolding irq_calls all_noted
irq_calls_lem which [] c r l e = ap (λ c. some (success, (c, r))) (sym (put_own which c l e))
irq_calls_lem which (k ∷ ks) c r l e =
    then_lem (irq_call which k) (λ _. irq_calls which ks) (c, r) _ _ (irq_call_lem which k c r l e)
    ∙ irq_calls_lem which ks (put which (noted k l) c) r (noted k l)
        (get_elem?-set_self c.lines which l (noted k l) e)
    ∙ ap (λ c. some (success, (c, r))) (put-put which c (noted k l) _)

-- The type and the mask that were asked for last, if any was.
unfoldable pub last_type : List Change → Option ℕ
last_type [] = none
last_type (set_type type ∷ ks) = elim (last_type ks) [ none ↦ irq_type_of type | some t ↦ some t ]
last_type (_ ∷ ks) = last_type ks

unfoldable pub last_mask : List Change → Option Bool
last_mask [] = none
last_mask (mask ∷ ks) = elim (last_mask ks) [ none ↦ some true | some b ↦ some b ]
last_mask (unmask ∷ ks) = elim (last_mask ks) [ none ↦ some false | some b ↦ some b ]
last_mask (set_type _ ∷ ks) = last_mask ks

abbrev pub with_type : Option ℕ → Line → Line
with_type none l = l
with_type (some t) l = record l { irq_type = t; irq_type_pending = true }

abbrev pub with_mask : Option Bool → Line → Line
with_mask none l = l
with_mask (some b) l = record l { masked = b; masked_pending = true }

abbrev pub both : Option ℕ → Option Bool → Line → Line
both t b l = with_mask b (with_type t l)

both-mask :
    (v : Bool) (t : Option ℕ) (b : Option Bool) (l : Line)
    → both t b (record l { masked = v; masked_pending = true })
      ≡ both t (elim b [ none ↦ some v | some b ↦ some b ]) l
both-mask v none none l = refl
both-mask v none (some b) l = refl
both-mask v (some t) none l = refl
both-mask v (some t) (some b) l = refl

both-type :
    (o t : Option ℕ) (b : Option Bool) (l : Line)
    → both t b (elim o [ none ↦ l | some t ↦ record l { irq_type = t; irq_type_pending = true } ])
      ≡ both (elim t [ none ↦ o | some t ↦ some t ]) b l
both-type none none b l = refl
both-type none (some t) b l = refl
both-type (some u) none b l = refl
both-type (some u) (some t) none l = refl
both-type (some u) (some t) (some b) l = refl

pub all_noted_lem :
    (ks : List Change) (l : Line) → all_noted ks l ≡ both (last_type ks) (last_mask ks) l
unfolding all_noted noted last_type last_mask
all_noted_lem [] l = refl
all_noted_lem (mask ∷ ks) l =
    all_noted_lem ks (noted mask l) ∙ both-mask true (last_type ks) (last_mask ks) l
all_noted_lem (unmask ∷ ks) l =
    all_noted_lem ks (noted unmask l) ∙ both-mask false (last_type ks) (last_mask ks) l
all_noted_lem (set_type type ∷ ks) l =
    all_noted_lem ks (noted (set_type type) l)
    ∙ both-type (irq_type_of type) (last_type ks) (last_mask ks) l
