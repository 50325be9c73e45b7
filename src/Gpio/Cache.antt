-- ===== src/Gpio/Cache.antt =====
-- What the GPIO driver knows of the lines, and that no call leaves the lines.
use greybus.Base.{
  ℕ, suc, ◌+◌, ◌<◌, ◌≤◌, ◌%◌, ◌≡◌, refl, Option, some, List, [], ◌∷◌, arith, length, get_elem?, set,
  length-set, ◌≢◌, sym, ap, inl, inr, Bool-cases, true, false, ltb, ◌==◌, if◌then◌else◌, zero, Bool,
}
use mathlib.Core.Option
use greybus.Base.Monad.{Returns, bind, weaken, pure, ◌>>=◌}
use greybus.Errno.{Errno, einval, success, is_success}
use greybus.Sync.{Serve, received, operation_sync}
use greybus.Gpio.Kind
use greybus.Gpio.{
  Line, Controller, bit, byte, line, change, then_change, activate_operation, deactivate_operation,
  get_direction_operation, direction_in_operation, direction_out_operation, get_value_operation,
  set_value_operation, set_debounce_operation, get_direction, get, set_debounce, Ask, ask, request,
  free, read_direction, direction_input, read_value, direction_output, write_value, write_debounce,
}

-- The lines go up to the greatest number, which is a byte.
pub record IsValid (c : Controller) : Type 0 where
  pub bounded : c.line_max < 256
  pub sized : length c.lines ≡ c.line_max + 1

get_elem?-length :
    {A : Type 0} (xs : List A) (i : ℕ) → i < length xs → (a : A) × (get_elem? xs i ≡ some a)
get_elem?-length [] i h = absurd (ground arith)
get_elem?-length (x ∷ xs) zero h = (x, refl)
get_elem?-length (x ∷ xs) (suc i) h = get_elem?-length xs i (omega (arith, h))

get_elem?-set_other :
    {A : Type 0} (xs : List A) (i j : ℕ) (a : A) → i ≢ j → get_elem? (set xs j a) i ≡ get_elem? xs i
get_elem?-set_other [] i j a h = refl
get_elem?-set_other (x ∷ xs) zero zero a h = absurd (h refl)
get_elem?-set_other (x ∷ xs) (suc i) zero a h = refl
get_elem?-set_other (x ∷ xs) zero (suc j) a h = refl
get_elem?-set_other (x ∷ xs) (suc i) (suc j) a h = get_elem?-set_other xs i j a λ e. h (ap suc e)

-- The state of a line's interrupt.
pub record Irq : Type 0 where
  pub irq_type : ℕ
  pub irq_type_pending : Bool
  pub masked : Bool
  pub masked_pending : Bool

abbrev pub irq : Line → Irq
irq l = record {
  irq_type = l.irq_type;
  irq_type_pending = l.irq_type_pending;
  masked = l.masked;
  masked_pending = l.masked_pending;
}

abbrev pub irq_at : Controller → ℕ → Option Irq
irq_at c i = Option.map irq (get_elem? c.lines i)

-- A set that keeps what `g` gives of the element keeps it at every index.
at_set :
    {A B : Type 0} (g : A → B) (xs : List A) (i j : ℕ) (x : A) (f : A → A)
    → ((y : A) → g (f y) ≡ g y)
    → get_elem? xs j ≡ some x
    → Option.map g (get_elem? (set xs j (f x)) i) ≡ Option.map g (get_elem? xs i)
at_set g [] i j x f k h = refl
at_set g (y ∷ xs) zero zero x f k h = rw (k x) (ap (Option.map g) (sym h))
at_set g (y ∷ xs) (suc i) zero x f k h = refl
at_set g (y ∷ xs) zero (suc j) x f k h = refl
at_set g (y ∷ xs) (suc i) (suc j) x f k h = at_set g xs i j x f k h

-- What a call about the line `which` may do to the controller: it changes that line alone, none of the
-- interrupts, and nothing at all if it fails.
pub record Kept (which : ℕ) (c : Controller) (e : Errno) (c' : Controller) : Type 0 where
  pub line_max : c'.line_max ≡ c.line_max
  pub sized : length c'.lines ≡ length c.lines
  pub others : (i : ℕ) → i ≢ which → get_elem? c'.lines i ≡ get_elem? c.lines i
  pub irqs : (i : ℕ) → irq_at c' i ≡ irq_at c i
  pub failed : is_success e ≡ false → c' ≡ c

unchanged-Kept : (which : ℕ) (c : Controller) (e : Errno) → Kept which c e c
unchanged-Kept which c e = record {
  line_max = refl;
  sized = refl;
  others = λ i h. refl;
  irqs = λ i. refl;
  failed = λ h. refl;
}

Kept-IsValid :
    (which : ℕ) (c : Controller) (e : Errno) (c' : Controller)
    → Kept which c e c'
    → IsValid c
    → IsValid c'
Kept-IsValid which c e c' k v = record {
  bounded = ground (arith, v.bounded, k.line_max);
  sized = omega (arith, v.sized, k.line_max, k.sized);
}

change-Kept :
    {R : Type 0} (which : ℕ) (f : Line → Line) (c : Controller) (r : R)
    → which < length c.lines
    → ((l : Line) → irq (f l) ≡ irq l)
    → Returns {A = Errno} (λ e s. Kept which c e s.0) (change which f (c, r))
unfolding change
change-Kept which f c r h k =
    let (l, e) = get_elem?-length c.lines which h in
    rw (e, change)
      (record {
        line_max = refl;
        sized = length-set c.lines which (f l);
        others = λ i n. get_elem?-set_other c.lines i which (f l) n;
        irqs = λ i. at_set irq c.lines i which l f k e;
        failed = λ n. absurd (ground arith);
      })

then_change-Kept :
    {R : Type 0} (which : ℕ) (f : Line → Line) (ret : Errno) (c : Controller) (r : R)
    → which < length c.lines
    → ((l : Line) → irq (f l) ≡ irq l)
    → Returns {A = Errno} (λ e s. Kept which c e s.0) (then_change which f ret (c, r))
unfolding then_change
then_change-Kept which f ret c r h k = elim (Bool-cases (is_success ret)) [
  | inl y ↦ rw y (change-Kept which f c r h k)
  | inr n ↦ rw n (unchanged-Kept which c ret)
]

module _ {R : Type 0} (serve : Serve R) (which : ℕ) (c : Controller) (r : R)
    (h : which < length c.lines) where
  exchange-Kept :
      (kind : ℕ) (payload : List ℕ) (size : ℕ) (f : List ℕ → Line → Line)
      → ((response : List ℕ) (l : Line) → irq (f response l) ≡ irq l)
      → Returns {A = Errno}
          (λ e s. Kept which c e s.0)
          ((operation_sync serve kind payload size >>= λ (ret, response).
              then_change which (f response) ret)
            (c, r))
  unfolding operation_sync
  exchange-Kept kind payload size f k =
      let (answer, r') = serve kind payload r in
      then_change-Kept which (f (received size answer).1) (received size answer).0 c r' h
        (k (received size answer).1)

  activate_operation-Kept :
      Returns {A = Errno} (λ e s. Kept which c e s.0) (activate_operation serve which (c, r))
  unfolding activate_operation
  activate_operation-Kept = exchange-Kept _ _ _ (λ _ l. record l { active = true }) λ _ l. refl

  get_direction_operation-Kept :
      Returns {A = Errno} (λ e s. Kept which c e s.0) (get_direction_operation serve which (c, r))
  unfolding get_direction_operation
  get_direction_operation-Kept =
      exchange-Kept _ _ _ (λ response l. record l { direction = bit (byte response) }) λ _ l. refl

  set_value_operation_input :
      (value : ℕ) (l : Line)
      → get_elem? c.lines which ≡ some l
      → (l.direction == 1) ≡ true
      → set_value_operation serve which value (c, r) ≡ some (success, (c, r))
  unfolding set_value_operation line
  set_value_operation_input value l e y = ground (arith, e, y)

  set_value_operation_output :
      (value : ℕ) (l : Line)
      → get_elem? c.lines which ≡ some l
      → (l.direction == 1) ≡ false
      → set_value_operation serve which value (c, r)
        ≡ (operation_sync serve Kind.set_value (which ∷ bit value ∷ []) 0 >>= λ (ret, _).
              then_change which (λ l. record l { value = bit value }) ret)
            (c, r)
  unfolding set_value_operation line
  set_value_operation_output value l e n = ground (arith, e, n)

  set_value_operation-Kept :
      (value : ℕ)
      → Returns {A = Errno}
          (λ e s. Kept which c e s.0)
          (set_value_operation serve which value (c, r))
  set_value_operation-Kept value =
      let (l, e) = get_elem?-length c.lines which h in
      elim (Bool-cases (l.direction == 1)) [
        | inl y ↦ rw (set_value_operation_input value l e y) (unchanged-Kept which c success)
        | inr n ↦
            rw (set_value_operation_output value l e n)
              (exchange-Kept _ _ _ (λ _ l. record l { value = bit value }) λ _ l. refl)
      ]

line_lem :
    {R : Type 0} (which : ℕ) (c : Controller) (r : R) (l : Line) (g : Line → ℕ)
    → get_elem? c.lines which ≡ some l
    → (◌>>=◌ {B = Errno × ℕ} (line which) (λ l. pure (success, g l))) (c, r)
      ≡ some ((success, g l), (c, r))
unfolding line
line_lem which c r l g e = ground (arith, e)

-- Reading the line after a call that succeeded.
line-Kept :
    {R : Type 0} (which : ℕ) (c : Controller) (e : Errno) (c' : Controller) (r : R) (g : Line → ℕ)
    → which < length c.lines
    → Kept which c e c'
    → Returns {A = Errno × ℕ}
        (λ x s. Kept which c x.0 s.0)
        ((line which >>= λ l. pure (success, g l)) (c', r))
line-Kept which c e c' r g h k =
    let (l, found) = get_elem?-length c'.lines which (ground (arith, k.sized, h)) in
    rw (line_lem which c' r l g found) (record {
      line_max = k.line_max;
      sized = k.sized;
      others = k.others;
      irqs = k.irqs;
      failed = λ n. absurd (ground arith);
    })

module _ {R : Type 0} (serve : Serve R) (which : ℕ) (c : Controller) (r : R)
    (h : which < length c.lines) where
  -- A request and, if it succeeds, a look at the line.
  look-Kept :
      (o : Option (Errno × (Controller × R))) (g : Line → ℕ)
      → Returns {A = Errno} (λ e s. Kept which c e s.0) o
      → Returns {A = Errno × ℕ}
          (λ x s. Kept which c x.0 s.0)
          (((λ s. o) >>= λ ret.
              if is_success ret then (line which >>= λ l. pure (success, g l)) else pure (ret, 0))
            (c, r))
  look-Kept o g k = bind _ _ o _ k λ e s k'. elim (Bool-cases (is_success e)) [
    | inl y ↦ rw y (line-Kept which c e s.0 s.1 g h k')
    | inr n ↦ rw n k'
  ]

-- The number of the line that a call is about.
abbrev pub number : Ask → ℕ
number (request offset) = offset
number (free offset) = offset
number (read_direction offset) = offset
number (direction_input offset) = offset
number (read_value offset) = offset
number (direction_output offset value) = offset
number (write_value offset value) = offset
number (write_debounce offset debounce) = offset

direct-Kept :
    {R : Type 0} (serve : Serve R) (q : Ask) (c : Controller) (r : R)
    → number q % 256 < length c.lines
    → Returns {A = Errno} (λ e s. Kept (number q % 256) c e s.0) (ask serve q (c, r))
unfolding ask deactivate_operation direction_in_operation direction_out_operation get_direction get
    set_debounce set_debounce_operation get_value_operation
direct-Kept serve (request offset) c r h = activate_operation-Kept serve _ c r h
direct-Kept serve (free offset) c r h =
    exchange-Kept serve _ c r h _ _ _ (λ _ l. record l { active = false }) λ _ l. refl
direct-Kept serve (read_direction offset) c r h =
    bind _ _ (get_direction serve offset (c, r)) _
      (look-Kept serve _ c r h (get_direction_operation serve (offset % 256) (c, r))
        (λ l. bit l.direction) (get_direction_operation-Kept serve _ c r h))
      λ _ _ k. k
direct-Kept serve (direction_input offset) c r h =
    exchange-Kept serve _ c r h _ _ _ (λ _ l. record l { direction = 1 }) λ _ l. refl
direct-Kept serve (read_value offset) c r h =
    bind _ _ (get serve offset (c, r)) _
      (look-Kept serve _ c r h (get_value_operation serve (offset % 256) (c, r)) (λ l. l.value)
        (exchange-Kept serve _ c r h _ _ _ (λ response l. record l { value = bit (byte response) })
          λ _ l. refl))
      λ _ _ k. k
direct-Kept serve (direction_output offset value) c r h =
    exchange-Kept serve _ c r h _ _ _ (λ _ l. record l { direction = 0 }) λ _ l. refl
direct-Kept serve (write_value offset value) c r h = set_value_operation-Kept serve _ c r h value
direct-Kept serve (write_debounce offset debounce) c r h = elim (Bool-cases (ltb 65535 debounce)) [
  | inl y ↦ rw y (unchanged-Kept _ c einval)
  | inr n ↦
      rw n (
        exchange-Kept serve _ c r h _ _ _ (λ _ l. record l { debounce_usec = debounce })
          λ _ l. refl)
]

-- In a valid controller a call about a line that exists, whatever the answer to its request, does not
-- fault and leaves a valid controller: it changes that line alone, no interrupt of any line, and
-- nothing at all if it fails.
pub ask-Kept :
    {R : Type 0} (serve : Serve R) (q : Ask) (c : Controller) (r : R)
    → IsValid c
    → number q % 256 ≤ c.line_max
    → Returns {A = Errno} (λ e s. IsValid s.0 × Kept (number q % 256) c e s.0) (ask serve q (c, r))
ask-Kept serve q c r v h =
    weaken _ _ (ask serve q (c, r)) (direct-Kept serve q c r (omega (arith, v.sized, h)))
      λ e s k. (Kept-IsValid _ c e s.0 k v, k)
