-- ===== src/Uart/Lines.antt =====
-- What the control lines of a terminal are after they were set.
use Prim.Native.Nat.{bit_or}
use greybus.Base.{
  ℕ, ◌≡◌, refl, arith, Bool, true, false, ◌==◌, ◌&&◌, ◌||◌, not, inl, inr, Bool-cases, ==_iff,
  if◌then◌else◌, subst, ap, sym, ◌∙◌,
}
use greybus.Base.Monad.{Returns, weaken}
use greybus.Errno.{Errno}
use greybus.Sync.{Serve, operation_sync}
use greybus.Uart.{Tty, has_bits, send_control}
use greybus.Uart.Kind
use greybus.Uart.Control.{
  tiocmget, tiocmset, lines_of, without, tiocm_dtr, tiocm_rts, tiocm_dsr, tiocm_ri, tiocm_cd,
}

-- The lines that the other end was asked for are those of the terminal.
newctrl : ℕ → ℕ → ℕ → ℕ
newctrl set clear old = bit_or (without (lines_of clear) old) (lines_of set)

tiocmset_ctrlout :
    {R : Type 0} (serve : Serve R) (set clear : ℕ) (t : Tty) (r : R)
    → Returns {A = Errno}
        (λ _ s. s.0 ≡ record t { ctrlout = newctrl set clear t.ctrlout })
        (tiocmset serve set clear (t, r))
unfolding tiocmset send_control operation_sync newctrl
tiocmset_ctrlout serve set clear t r =
    elim (Bool-cases (t.ctrlout == newctrl set clear t.ctrlout)) [
      | inl y ↦ rw y (ap (λ c. record t { ctrlout = c }) ((==_iff _ _).0 y))
      | inr n ↦ rw n refl
    ]

same : Bool → Bool → Bool
same true b = b
same false b = not b

same_sound : (a b : Bool) → same a b ≡ true → a ≡ b
unfolding same
same_sound true true e = refl
same_sound true false e = absurd (ground arith)
same_sound false true e = absurd (ground arith)
same_sound false false e = refl

-- A test of every truth value.
abbrev every : (Bool → Bool) → Bool
every p = p true && p false

every_sound : (p : Bool → Bool) → every p ≡ true → (b : Bool) → p b ≡ true
every_sound p e true = ground (arith, e)
every_sound p e false = ground (arith, e)

abbrev bit : Bool → ℕ → ℕ
bit b n = if b then n else 0

-- The lines that are shown for five truths, and what they are read back as.
abbrev shown : Bool → Bool → Bool → Bool → Bool → ℕ
shown dtr rts dsr ri cd = bit_or (bit dtr 0x002) (
    bit_or (bit rts 0x004)
      (bit_or (bit dsr 0x100) (bit_or (bit ri 0x080) (bit_or (bit cd 0x040) 0x020))))

abbrev is_shown : ℕ → Bool → Bool → Bool → Bool → Bool → Bool
is_shown n dtr rts dsr ri cd =
    same (has_bits 0x002 n) dtr
    && same (has_bits 0x004 n) rts
    && same (has_bits 0x100 n) dsr
    && same (has_bits 0x080 n) ri
    && same (has_bits 0x040 n) cd

shown_table :
    (every λ a. every λ b. every λ c. every λ d. every λ e. is_shown (shown a b c d e) a b c d e)
    ≡ true
unfolding same
shown_table = refl

shown_lem : (a b c d e : Bool) → is_shown (shown a b c d e) a b c d e ≡ true
shown_lem a b c d e =
    every_sound (λ e. is_shown (shown a b c d e) a b c d e)
      (every_sound (λ d. every λ e. is_shown (shown a b c d e) a b c d e)
        (every_sound (λ c. every λ d. every λ e. is_shown (shown a b c d e) a b c d e)
          (every_sound (λ b. every λ c. every λ d. every λ e. is_shown (shown a b c d e) a b c d e)
            (every_sound
              (λ a.
                every λ b. every λ c. every λ d. every λ e. is_shown (shown a b c d e) a b c d e)
              shown_table a)
            b)
          c)
        d)
      e

-- What the modem's lines are read as.
pub record Modem (n : ℕ) (a b c d e : Bool) : Type 0 where
  pub dtr : has_bits tiocm_dtr n ≡ a
  pub rts : has_bits tiocm_rts n ≡ b
  pub dsr : has_bits tiocm_dsr n ≡ c
  pub ri : has_bits tiocm_ri n ≡ d
  pub cd : has_bits tiocm_cd n ≡ e

both_true : (a b : Bool) → (a && b) ≡ true → (a ≡ true) × (b ≡ true)
both_true true b e = (refl, e)
both_true false b e = absurd (ground arith)

shown-Modem : (a b c d e : Bool) → Modem (shown a b c d e) a b c d e
shown-Modem a b c d e =
    let (abcd, e') = both_true _ _ (shown_lem a b c d e) in
    let (abc, d') = both_true _ _ abcd in
    let (ab, c') = both_true _ _ abc in
    let (a', b') = both_true _ _ ab in
    record {
      dtr = same_sound _ a a';
      rts = same_sound _ b b';
      dsr = same_sound _ c c';
      ri = same_sound _ d d';
      cd = same_sound _ e e';
    }

-- The control lines of the module, DTR and RTS.
abbrev pub control : Bool → Bool → ℕ
control a b = bit_or (bit a 1) (bit b 2)

-- A line that is set, or that was and is not cleared.
abbrev pub kept : Bool → Bool → Bool → Bool
kept set clear old = set || (old && not clear)

newctrl_of : Bool → Bool → Bool → Bool → Bool → Bool → ℕ
newctrl_of s s' c c' a b = bit_or (without (control c c') (control a b)) (control s s')

newctrl_table :
    (every λ s. every λ s'. every λ c.
      every
        λ c'. every λ a. every λ b. newctrl_of s s' c c' a b == control (kept s c a) (kept s' c' b))
    ≡ true
unfolding newctrl_of
newctrl_table = refl

newctrl_of_lem :
    (s s' c c' a b : Bool) → newctrl_of s s' c c' a b ≡ control (kept s c a) (kept s' c' b)
newctrl_of_lem s s' c c' a b =
    let P : Bool → Bool → Bool → Bool → Bool → Bool → Bool =
      λ s s' c c' a b. newctrl_of s s' c c' a b == control (kept s c a) (kept s' c' b) in
    (==_iff _ _).0 (
      every_sound (P s s' c c' a)
        (every_sound (λ a. every (P s s' c c' a))
          (every_sound (λ c'. every λ a. every (P s s' c c' a))
            (every_sound (λ c. every λ c'. every λ a. every (P s s' c c' a))
              (every_sound (λ s'. every λ c. every λ c'. every λ a. every (P s s' c c' a))
                (every_sound
                  (λ s. every λ s'. every λ c. every λ c'. every λ a. every (P s s' c c' a))
                  newctrl_table s)
                s')
              c)
            c')
          a)
        b)

newctrl_lem :
    (set clear old : ℕ) (a b : Bool)
    → old ≡ control a b
    → newctrl set clear old
      ≡ control
          (kept (has_bits tiocm_dtr set) (has_bits tiocm_dtr clear) a)
          (kept (has_bits tiocm_rts set) (has_bits tiocm_rts clear) b)
unfolding newctrl newctrl_of lines_of
newctrl_lem set clear old a b e = ap (newctrl set clear) e ∙ newctrl_of_lem _ _ _ _ a b

control_dtr : (a b : Bool) → has_bits Kind.ctrl_dtr (control a b) ≡ a
control_dtr true true = refl
control_dtr true false = refl
control_dtr false true = refl
control_dtr false false = refl

control_rts : (a b : Bool) → has_bits Kind.ctrl_rts (control a b) ≡ b
control_rts true true = refl
control_rts true false = refl
control_rts false true = refl
control_rts false false = refl

tiocmget-Modem :
    (t : Tty) (a b : Bool)
    → t.ctrlout ≡ control a b
    → Modem
        (tiocmget t)
        a
        b
        (has_bits Kind.ctrl_dsr t.ctrlin)
        (has_bits Kind.ctrl_ri t.ctrlin)
        (has_bits Kind.ctrl_dcd t.ctrlin)
unfolding tiocmget
tiocmget-Modem t a b e =
    let c = has_bits Kind.ctrl_dsr t.ctrlin in
    let d = has_bits Kind.ctrl_ri t.ctrlin in
    let cd = has_bits Kind.ctrl_dcd t.ctrlin in
    let dtr : has_bits Kind.ctrl_dtr t.ctrlout ≡ a =
      ap (has_bits Kind.ctrl_dtr) e ∙ control_dtr a b in
    let rts : has_bits Kind.ctrl_rts t.ctrlout ≡ b =
      ap (has_bits Kind.ctrl_rts) e ∙ control_rts a b in
    subst (λ n. Modem n a b c d cd)
      (sym (
        ap (λ x. shown x (has_bits Kind.ctrl_rts t.ctrlout) c d cd) dtr
        ∙ ap (λ x. shown a x c d cd) rts))
      (shown-Modem a b c d cd)

-- After lines are set and cleared, where the terminal's lines are DTR and RTS alone, so they are still,
-- and what is read back is each of them set, or as it was if it was not cleared, and the lines that
-- the module sent last.
pub tiocmget-tiocmset :
    {R : Type 0} (serve : Serve R) (set clear : ℕ) (t : Tty) (r : R) (a b : Bool)
    → t.ctrlout ≡ control a b
    → Returns {A = Errno}
        (λ _ s.
          let a' = kept (has_bits tiocm_dtr set) (has_bits tiocm_dtr clear) a in
          let b' = kept (has_bits tiocm_rts set) (has_bits tiocm_rts clear) b in
          (s.0.ctrlout ≡ control a' b')
          × Modem
              (tiocmget s.0)
              a'
              b'
              (has_bits Kind.ctrl_dsr t.ctrlin)
              (has_bits Kind.ctrl_ri t.ctrlin)
              (has_bits Kind.ctrl_dcd t.ctrlin))
        (tiocmset serve set clear (t, r))
tiocmget-tiocmset serve set clear t r a b e =
    weaken _ _ (tiocmset serve set clear (t, r)) (tiocmset_ctrlout serve set clear t r) λ _ s left.
      let a' = kept (has_bits tiocm_dtr set) (has_bits tiocm_dtr clear) a in
      let b' = kept (has_bits tiocm_rts set) (has_bits tiocm_rts clear) b in
      let now = ap (λ t. t.ctrlout) left ∙ newctrl_lem set clear t.ctrlout a b e in
      (
        now,
        subst
            (λ x.
              Modem (tiocmget s.0) a' b' (has_bits Kind.ctrl_dsr x) (has_bits Kind.ctrl_ri x)
                (has_bits Kind.ctrl_dcd x))
            (ap (λ t. t.ctrlin) left) (tiocmget-Modem s.0 a' b' now),
      )
