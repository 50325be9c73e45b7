-- ===== src/Gpio/Unlock.antt =====
-- What goes out when the bus of the GPIO interrupts is unlocked.
use greybus.Base.{
  ℕ, Bool, true, false, Option, none, some, List, [], ◌∷◌, ◌++◌, ◌≡◌, refl, sym, ap, ◌∙◌,
  if◌then◌else◌, arith, inl, inr, Bool-cases, get_elem?,
}
use greybus.Base.Monad.{◌>>=◌, then_lem}
use greybus.Errno.{success}
use greybus.Sync.{Serve, received, operation_sync}
use greybus.Gpio.Kind
use greybus.Gpio.{Line, Controller, line}
use greybus.Gpio.Irq.{
  Change, irq_calls, send_mask, send_unmask, send_type, flush_type, flush_mask, bus_sync_unlock,
}
use greybus.Gpio.Pending.{
  get_elem?-set_self, put, put-put, put_own, change_lem, all_noted, irq_calls_lem, last_type,
  last_mask, both, all_noted_lem,
}

-- What answers after requests, each of a type and a payload.
unfoldable pub asked : {R : Type 0} → Serve R → List (ℕ × List ℕ) → R → R
asked serve [] r = r
asked serve ((kind, payload) ∷ qs) r = asked serve qs (serve kind payload r).1

abbrev type_sent : ℕ → Line → List (ℕ × List ℕ)
type_sent which l = if l.irq_type_pending then (Kind.irq_type, which ∷ l.irq_type ∷ []) ∷ [] else []

abbrev mask_sent : ℕ → Line → List (ℕ × List ℕ)
mask_sent which l =
    if l.masked_pending
    then ((if l.masked then Kind.irq_mask else Kind.irq_unmask), which ∷ []) ∷ []
    else []

module _ {R : Type 0} (serve : Serve R) (which : ℕ) (c : Controller) (r : R) (l : Line)
    (e : get_elem? c.lines which ≡ some l) where
  line_lem : line which (c, r) ≡ some (l, (c, r))
  unfolding line
  line_lem = ground (arith, e)

  flush_type_lem :
      flush_type serve which (c, r)
      ≡ some (
        success,
        (put which (record l { irq_type_pending = false }) c, asked serve (type_sent which l) r),
      )
  unfolding flush_type asked send_type operation_sync
  flush_type_lem =
      then_lem (line which) _ (c, r) _ _ line_lem ∙ elim (Bool-cases l.irq_type_pending) [
        | inl y ↦ rw y (change_lem which c _ (λ l. record l { irq_type_pending = false }) l e)
        | inr n ↦ rw n (
            ap (λ c. some (success, (c, r)))
              (sym (put_own which c l e)
                ∙ ap (λ b. put which (record l { irq_type_pending = b }) c) n))
      ]

  mask_call :
      (b : Bool)
      → (if b then send_mask serve which else send_unmask serve which) (c, r) ≡ (
          let (answer, r') = serve (if b then Kind.irq_mask else Kind.irq_unmask) (which ∷ []) r in
          some (received 0 answer, (c, r')))
  unfolding send_mask send_unmask operation_sync
  mask_call true = refl
  mask_call false = refl

  flush_mask_lem :
      flush_mask serve which (c, r)
      ≡ some (
        success,
        (put which (record l { masked_pending = false }) c, asked serve (mask_sent which l) r),
      )
  unfolding flush_mask asked send_mask send_unmask operation_sync
  flush_mask_lem =
      then_lem (line which) _ (c, r) _ _ line_lem ∙ elim (Bool-cases l.masked_pending) [
        | inl y ↦ rw y (
            then_lem (if l.masked then send_mask serve which else send_unmask serve which) _ (c, r)
              _ _ (mask_call l.masked)
            ∙ change_lem which c _ (λ l. record l { masked_pending = false }) l e)
        | inr n ↦ rw n (
            ap (λ c. some (success, (c, r)))
              (sym (put_own which c l e)
                ∙ ap (λ b. put which (record l { masked_pending = b }) c) n))
      ]

-- What an unlock sends for a line, and what it leaves there.
abbrev line_sent : ℕ → Line → List (ℕ × List ℕ)
line_sent which l = type_sent which l ++ mask_sent which l

asked-append :
    {R : Type 0} (serve : Serve R) (qs qs' : List (ℕ × List ℕ)) (r : R)
    → asked serve (qs ++ qs') r ≡ asked serve qs' (asked serve qs r)
unfolding asked
asked-append serve [] qs' r = refl
asked-append serve ((kind, payload) ∷ qs) qs' r = asked-append serve qs qs' _

bus_sync_unlock_lem :
    {R : Type 0} (serve : Serve R) (which : ℕ) (c : Controller) (r : R) (l : Line)
    → get_elem? c.lines which ≡ some l
    → bus_sync_unlock serve which (c, r)
      ≡ some (
        success,
        (
          put which (record l { irq_type_pending = false; masked_pending = false }) c,
          asked serve (line_sent which l) r,
        ),
      )
unfolding bus_sync_unlock
bus_sync_unlock_lem serve which c r l e =
    let settled = record l { irq_type_pending = false } in
    then_lem (flush_type serve which) (λ _. flush_mask serve which) (c, r) _ _
      (flush_type_lem serve which c r l e)
    ∙ flush_mask_lem serve which (put which settled c) _ settled
        (get_elem?-set_self c.lines which l settled e)
    ∙ ap
        (λ c.
          some (success, (c, asked serve (mask_sent which l) (asked serve (type_sent which l) r))))
        (put-put which c settled (record settled { masked_pending = false }))
    ∙ ap (λ r'. some (success, (put which (record settled { masked_pending = false }) c, r')))
        (sym (asked-append serve (type_sent which l) (mask_sent which l) r))

-- The requests that the last type and the last mask make, if there were any.
abbrev type_request : ℕ → Option ℕ → List (ℕ × List ℕ)
type_request which none = []
type_request which (some t) = (Kind.irq_type, which ∷ t ∷ []) ∷ []

abbrev mask_request : ℕ → Option Bool → List (ℕ × List ℕ)
mask_request which none = []
mask_request which (some true) = (Kind.irq_mask, which ∷ []) ∷ []
mask_request which (some false) = (Kind.irq_unmask, which ∷ []) ∷ []

abbrev pub sent : ℕ → List Change → List (ℕ × List ℕ)
sent which ks = type_request which (last_type ks) ++ mask_request which (last_mask ks)

abbrev or_else : {A : Type 0} → Option A → A → A
or_else none d = d
or_else (some a) d = a

-- The line afterwards.
abbrev pub settled : List Change → Line → Line
settled ks l = record l {
  irq_type = or_else (last_type ks) l.irq_type;
  irq_type_pending = false;
  masked = or_else (last_mask ks) l.masked;
  masked_pending = false;
}

abbrev IsSettled : ℕ → Line → Option ℕ → Option Bool → Type 0
IsSettled which l t b =
    (line_sent which (both t b l) ≡ type_request which t ++ mask_request which b)
    × (record (both t b l) { irq_type_pending = false; masked_pending = false } ≡ record l {
      irq_type = or_else t l.irq_type;
      irq_type_pending = false;
      masked = or_else b l.masked;
      masked_pending = false;
    })

both-IsSettled :
    (which : ℕ) (l : Line) (t : Option ℕ) (b : Option Bool)
    → l.irq_type_pending ≡ false
    → l.masked_pending ≡ false
    → IsSettled which l t b
both-IsSettled which l none none p m = rw (p, m) (refl, refl)
both-IsSettled which l none (some true) p m = rw p (refl, refl)
both-IsSettled which l none (some false) p m = rw p (refl, refl)
both-IsSettled which l (some t) none p m = rw m (refl, refl)
both-IsSettled which l (some t) (some true) p m = (refl, refl)
both-IsSettled which l (some t) (some false) p m = (refl, refl)

-- Any calls made while the bus is locked, on a line that exists and has nothing pending, send nothing
-- until the unlock: then the last type that is supported goes out, if there was one, and after it the
-- last mask or unmask, if there was one. Whatever is answered, the line has that type and that mask
-- and nothing pending, and nothing else of the controller has changed.
pub bus_sync_unlock-irq_calls :
    {R : Type 0} (serve : Serve R) (which : ℕ) (ks : List Change) (c : Controller) (r : R)
    (l : Line)
    → get_elem? c.lines which ≡ some l
    → l.irq_type_pending ≡ false
    → l.masked_pending ≡ false
    → (irq_calls which ks >>= λ _. bus_sync_unlock serve which) (c, r)
      ≡ some (success, (put which (settled ks l) c, asked serve (sent which ks) r))
bus_sync_unlock-irq_calls serve which ks c r l e p m =
    let l' = all_noted ks l in
    let (qs, left) = both-IsSettled which l (last_type ks) (last_mask ks) p m in
    let left' = record l' { irq_type_pending = false; masked_pending = false } in
    let same = all_noted_lem ks l in
    then_lem (irq_calls which ks) (λ _. bus_sync_unlock serve which) (c, r) _ _
      (irq_calls_lem which ks c r l e)
    ∙ bus_sync_unlock_lem serve which (put which l' c) r l'
        (get_elem?-set_self c.lines which l l' e)
    ∙ ap (λ c. some (success, (c, asked serve (line_sent which l') r))) (put-put which c l' left')
    ∙ ap
        (λ l. some (
          success,
          (
            put which (record l { irq_type_pending = false; masked_pending = false }) c,
            asked serve (line_sent which l) r,
          ),
        ))
        same
    ∙ ap
        (λ x. some (
          success,
          (put which x c, asked serve (line_sent which (both (last_type ks) (last_mask ks) l)) r),
        ))
        left
    ∙ ap (λ qs. some (success, (put which (settled ks l) c, asked serve qs r))) qs
