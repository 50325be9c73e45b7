-- ===== src/Uart/Minors.antt =====
-- What a connection of the UART driver takes of what the terminals share, and what it gives back.
use greybus.Base.{
  ℕ, ◌+◌, ◌-◌, ◌≡◌, ◌≢◌, refl, arith, true, false, Option, none, some, [], ◌∷◌, ◌==◌, ==_self,
  ==_ne, ==_iff, ◌⊎◌, inl, inr, Bool-cases, ap, sym, ◌∙◌,
}
use greybus.Base.Monad.{Returns, weaken}
use greybus.Errno.{Errno, is_success}
use greybus.Sync.{Serve, operation_sync}
use greybus.Uart.{Tty, send_control, send_line_coding}
use greybus.Uart.Session.{
  Shared, Minor, free, no_minor, Kernel, tty_init, tty_exit, drop_reference, release_minor,
  error_alloc, error_payload, error_minor, configure, register, create, connection_init,
  connection_exit,
}

-- What all terminals share when one more, with this minor number, is there.
abbrev pub with_tty : ℕ → Shared → Shared
with_tty minor d = record d {
  minors = minor ∷ d.minors;
  ttys = d.ttys + 1;
  buffers = d.buffers + 1;
}

-- The state after a start from a state that counts its reference already.
abbrev Created : Shared → Errno × Option Tty → Shared → Type 0
Created d (e, some t) d' = (is_success e ≡ true) × (d' ≡ with_tty t.minor d)
Created d (e, none) d' = d' ≡ drop_reference d

Minor-cases : (x : Minor) → ((e : Errno) × (x ≡ no_minor e)) ⊎ ((minor : ℕ) × (x ≡ free minor))
Minor-cases (no_minor e) = inl (e, refl)
Minor-cases (free minor) = inr (minor, refl)

one_less : (n : ℕ) → n + 1 - 1 ≡ n
one_less n = omega arith

error_payload_lem : (d : Shared) → error_payload (record d { ttys = d.ttys + 1 }) ≡ drop_reference d
unfolding error_payload error_alloc
error_payload_lem d = ap (λ n. drop_reference (record d { ttys = n })) (one_less d.ttys)

error_minor_lem :
    (d : Shared)
    → error_minor (record d { ttys = d.ttys + 1; buffers = d.buffers + 1 }) ≡ drop_reference d
unfolding error_minor
error_minor_lem d =
    ap (λ n. error_payload (record d { ttys = d.ttys + 1; buffers = n })) (one_less d.buffers)
    ∙ error_payload_lem d

release_minor_lem :
    (minor : ℕ) (d : Shared) → release_minor minor (record d { minors = minor ∷ d.minors }) ≡ d
unfolding release_minor
release_minor_lem minor d = ap (λ ms. record d { minors = ms }) (rw (==_self minor) refl)

module _ {R : Type 0} (serve : Serve R) (k : Kernel) where
  register-Created :
      (d : Shared) (r : R)
      → Returns
          (λ x s. Created d x s.0)
          (register serve k (record d { ttys = d.ttys + 1; buffers = d.buffers + 1 }) r)
  unfolding register configure send_control send_line_coding operation_sync
  register-Created d r = elim (Minor-cases (k.idr_alloc d.minors)) [
    | inl (e, eq) ↦ rw (eq, register) (error_minor_lem d)
    | inr (minor, eq) ↦
        rw (eq, register)
          (elim (Bool-cases (is_success k.register_device)) [
            | inl y ↦ rw (y, register) (refl, refl)
            | inr n ↦
                rw (n, register)
                  (ap error_minor (
                      release_minor_lem minor
                        (record d { ttys = d.ttys + 1; buffers = d.buffers + 1 }))
                    ∙ error_minor_lem d)
          ])
  ]

  create-Created : (d : Shared) (r : R) → Returns (λ x s. Created d x s.0) (create serve k d r)
  unfolding create error_alloc register configure
  create-Created d r = elim (Bool-cases k.has_tty) [
    | inr n ↦ rw n refl
    | inl y ↦ elim (Bool-cases (k.payload_max == 0)) [
      | inl z ↦ rw (y, z) (error_payload_lem d)
      | inr m ↦ elim (Bool-cases k.has_buffer) [
        | inr n ↦ rw (y, m, n) (error_payload_lem d)
        | inl b ↦ rw (y, m, b) (register-Created d r)
      ]
    ]
  ]

-- The driver is registered, and minor numbers are taken, only while there is a terminal.
pub record IsShared (d : Shared) : Type 0 where
  pub off : d.references ≡ 0 → d.registered ≡ false
  pub none_taken : d.references ≡ 0 → d.minors ≡ []

-- A start either succeeds, and then there is one reference, one terminal and one buffer more, and its
-- minor number is taken, or it fails and leaves everything as it was.
abbrev pub OneMore : Shared → Errno × Option Tty → Shared → Type 0
OneMore d (e, some t) d' =
    (is_success e ≡ true)
    × (d'
        ≡ with_tty t.minor (record d { references = d.references + 1; registered = d'.registered }))
OneMore d (e, none) d' = d' ≡ d

drop_last :
    (d : Shared)
    → IsShared d
    → d.references ≡ 0
    → drop_reference (record d { references = d.references + 1; registered = true }) ≡ d
unfolding drop_reference tty_exit
drop_last d v z =
    let gone : (d.references + 1 - 1 == 0) ≡ true = (==_iff _ _).1 (omega (arith, z)) in
    rw gone (
      ap (λ n. record d { references = n; registered = false; minors = [] }) (one_less d.references)
      ∙ ap (λ b. record d { registered = b; minors = [] }) (sym (v.off z))
      ∙ ap (λ ms. record d { minors = ms }) (sym (v.none_taken z)))

drop_another :
    (d : Shared)
    → d.references ≢ 0
    → drop_reference (record d { references = d.references + 1 }) ≡ d
unfolding drop_reference
drop_another d n =
    let left : (d.references + 1 - 1 == 0) ≡ false = ==_ne _ _ λ e. n (omega (arith, e)) in
    rw left (ap (λ n. record d { references = n }) (one_less d.references))

first :
    (x : Errno × Option Tty) (d d' : Shared)
    → IsShared d
    → d.references ≡ 0
    → Created (record d { references = d.references + 1; registered = true }) x d'
    → OneMore d x d'
first (e, some t) d d' v z (ok, c) = (
  ok,
  c
      ∙ ap (λ b. with_tty t.minor (record d { references = d.references + 1; registered = b }))
          (sym (ap (λ d. d.registered) c)),
)
first (e, none) d d' v z c = c ∙ drop_last d v z

another :
    (x : Errno × Option Tty) (d d' : Shared)
    → d.references ≢ 0
    → Created (record d { references = d.references + 1 }) x d'
    → OneMore d x d'
another (e, some t) d d' n (ok, c) = (
  ok,
  c
      ∙ ap (λ b. with_tty t.minor (record d { references = d.references + 1; registered = b }))
          (sym (ap (λ d. d.registered) c)),
)
another (e, none) d d' n c = c ∙ drop_another d n

init_first :
    {R : Type 0} (serve : Serve R) (k : Kernel) (d : Shared) (r : R)
    → (d.references + 1 == 1) ≡ true
    → k.has_driver ≡ true
    → is_success k.register_driver ≡ true
    → connection_init serve k (d, r)
      ≡ create serve k (record d { references = d.references + 1; registered = true }) r
unfolding connection_init tty_init
init_first serve k d r y h s = ground (arith, y, h, s)

init_unregistered :
    {R : Type 0} (serve : Serve R) (k : Kernel) (d : Shared) (r : R)
    → (d.references + 1 == 1) ≡ true
    → k.has_driver ≡ true
    → is_success k.register_driver ≡ false
    → connection_init serve k (d, r)
      ≡ some ((k.register_driver, none), (record d { references = d.references + 1 - 1 }, r))
unfolding connection_init tty_init
init_unregistered serve k d r y h n = ground (arith, y, h, n)

-- The start of a connection does not fault, whatever the kernel and the module answer. It either
-- succeeds, and then one reference, one terminal, one buffer and a minor number more are taken, or it
-- fails and leaves what the terminals share as it was.
pub connection_init-OneMore :
    {R : Type 0} (serve : Serve R) (k : Kernel) (d : Shared) (r : R)
    → IsShared d
    → Returns (λ x s. OneMore d x s.0) (connection_init serve k (d, r))
unfolding connection_init tty_init
connection_init-OneMore serve k d r v = elim (Bool-cases (d.references + 1 == 1)) [
  | inl y ↦ elim (Bool-cases k.has_driver) [
    | inr n ↦ rw (y, n) (ap (λ n. record d { references = n }) (one_less d.references))
    | inl h ↦ elim (Bool-cases (is_success k.register_driver)) [
      | inr n ↦
          rw (init_unregistered serve k d r y h n)
            (ap (λ n. record d { references = n }) (one_less d.references))
      | inl s ↦ rw (init_first serve k d r y h s) (
          weaken _ _
            (create serve k (record d { references = d.references + 1; registered = true }) r)
            (create-Created serve k (record d { references = d.references + 1; registered = true })
              r)
            λ x s c. first x d s.0 v (omega (arith, (==_iff _ _).0 y)) c)
    ]
  ]
  | inr n ↦ rw n (
      weaken _ _ (create serve k (record d { references = d.references + 1 }) r)
        (create-Created serve k (record d { references = d.references + 1 }) r)
        λ x s c. another x d s.0 (λ z. absurd (ground (arith, n, z))) c)
]

connection_exit-minors : (d : Shared) → d.references - 1 ≢ 0 → (connection_exit d).minors ≡ d.minors
unfolding connection_exit drop_reference
connection_exit-minors d n = rw (==_ne _ _ n) refl

OneMore-minors :
    (d d' : Shared) (x : Errno × Option Tty)
    → OneMore d x d'
    → d.references ≢ 0
    → (t : Tty) → x.1 ≡ some t
    → (connection_exit d').minors ≡ t.minor ∷ d.minors
OneMore-minors d d' (e, none) s n t eq = absurd (ground (arith, eq))
OneMore-minors d d' (e, some u) (ok, s) n t eq =
    connection_exit-minors d' (λ z. n (omega (arith, z, ap (λ d. d.references) s)))
    ∙ ap (λ d. d.minors) s
    ∙ ap (λ o. elim o [ none ↦ d.minors | some t ↦ t.minor ∷ d.minors ]) eq

-- A terminal that comes and goes while another one stays leaves its minor number taken: with each the
-- table has one more, until none is free.
pub connection_exit-connection_init :
    {R : Type 0} (serve : Serve R) (k : Kernel) (d : Shared) (r : R)
    → IsShared d
    → d.references ≢ 0
    → Returns
        (λ x s. (t : Tty) → x.1 ≡ some t → (connection_exit s.0).minors ≡ t.minor ∷ d.minors)
        (connection_init serve k (d, r))
connection_exit-connection_init serve k d r v n =
    weaken _ _ (connection_init serve k (d, r)) (connection_init-OneMore serve k d r v)
      λ x s c. OneMore-minors d s.0 x c n
