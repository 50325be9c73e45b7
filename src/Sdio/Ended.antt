-- ===== src/Sdio/Ended.antt =====
-- The loop of an SDIO transfer ends, and keeps what each of its pieces keeps.
use native.Mathlib.Nat.{zero-mul, mul-le-mul_right}
use greybus.Base.{
  ℕ, zero, suc, ◌+◌, ◌*◌, ◌-◌, ◌<◌, ◌≤◌, ◌≡◌, refl, arith, ◌∙◌, ap, subst, sym, Bool, true, Option,
  none, some, inl, inr, Bool-cases, ◌==◌, ◌||◌, List, length, take, drop,
}
use greybus.Base.Monad.{Returns, bind, weaken}
use greybus.Errno.{Errno, is_success}
use greybus.Sync.{Serve, received, operation_sync}
use greybus.Sdio.{
  transfer_request, Host, Data, Going, is_read, round_blocks, claimed, send, recv, take_in, piece,
  transfer_loop,
}
use greybus.Sdio.Kind
use greybus.Sdio.Rounds.{whole_blocks, some_left}

-- What a piece keeps of the host and the data.
pub record Same (h : Host) (d : Data) (h' : Host) (d' : Data) : Type 0 where
  pub host : h' ≡ h
  pub blksz : d'.blksz ≡ d.blksz
  pub xfered : d'.bytes_xfered ≡ d.bytes_xfered

module _ {R : Type 0} (serve : Serve R) where
  pub send-Same :
      (len nblocks skip : ℕ) (h : Host) (d : Data) (r : R)
      → Returns {S = Going R} {A = Errno}
          (λ e s. Same h d s.0.0 s.0.1)
          (send serve len nblocks skip ((h, d), r))
  unfolding send operation_sync
  send-Same len nblocks skip h d r =
      elim (Bool-cases (length (take len (drop skip d.bytes)) == len)) [
        | inl y ↦ rw y (record { host = refl; blksz = refl; xfered = refl })
        | inr n ↦ rw n (record { host = refl; blksz = refl; xfered = refl })
      ]

  take_in-Same :
      (len skip : ℕ) (response : List ℕ) (h : Host) (d : Data) (r : R)
      → Returns {S = Going R} {A = Errno}
          (λ e s. Same h d s.0.0 s.0.1)
          (take_in serve len skip response ((h, d), r))
  unfolding take_in
  take_in-Same len skip response h d r = elim (Bool-cases (len == claimed response)) [
    | inl y ↦ rw y (record { host = refl; blksz = refl; xfered = refl })
    | inr n ↦ rw n (record { host = refl; blksz = refl; xfered = refl })
  ]

  recv-Same :
      (len nblocks skip : ℕ) (h : Host) (d : Data) (r : R)
      → Returns {S = Going R} {A = Errno}
          (λ e s. Same h d s.0.0 s.0.1)
          (recv serve len nblocks skip ((h, d), r))
  unfolding recv operation_sync
  recv-Same len nblocks skip h d r =
      let (answer, r') = serve Kind.transfer (transfer_request d nblocks) r in
      elim (Bool-cases (is_success (received (len + 4) answer).0)) [
        | inl y ↦ rw y (take_in-Same len skip (received (len + 4) answer).1 h d r')
        | inr n ↦ rw n (record { host = refl; blksz = refl; xfered = refl })
      ]

  pub piece-Same :
      (len nblocks skip : ℕ) (h : Host) (d : Data) (r : R)
      → Returns {S = Going R} {A = Errno}
          (λ e s. Same h d s.0.0 s.0.1)
          (piece serve len nblocks skip ((h, d), r))
  unfolding piece
  piece-Same len nblocks skip h d r = elim (Bool-cases (is_read d)) [
    | inl y ↦ rw y (recv-Same len nblocks skip h d r)
    | inr n ↦ rw n (send-Same len nblocks skip h d r)
  ]

pair :
    {S A : Type 0} (P Q : A → S → Type 0) (o : Option (A × S))
    → Returns P o
    → Returns Q o
    → Returns (λ a s. P a s × Q a s) o
pair P Q none p q = p
pair P Q (some (a, s)) p q = (p, q)

-- The count that a successful piece of `len` bytes goes into.
abbrev pub counted : ℕ → Data → Data
counted len d = record d { bytes_xfered = d.bytes_xfered + len }

-- The blocks of the data can be sent in one piece.
pub record Fits (h : Host) (d : Data) : Type 0 where
  pub some_byte : 0 < d.blksz
  pub one_piece : d.blksz ≤ h.data_max
  pub small : h.data_max < 65536

module _ {R : Type 0} (serve : Serve R) (stops : ℕ → Bool) (Inv : ℕ → Data → R → Type 0)
    (step : (len nblocks skip : ℕ) (h : Host) (d : Data) (r : R)
      → Inv skip d r
      → Returns {S = Going R} {A = Errno}
          (λ e s. is_success e ≡ true → Inv (skip + len) (counted len s.0.1) s.1)
          (piece serve len nblocks skip ((h, d), r))) where
  both :
      (len nblocks skip : ℕ) (h : Host) (d : Data) (r : R)
      → Inv skip d r
      → Returns {S = Going R} {A = Errno}
          (λ e s.
            Same h d s.0.0 s.0.1 × (is_success e ≡ true → Inv (skip + len) (counted len s.0.1) s.1))
          (piece serve len nblocks skip ((h, d), r))
  both len nblocks skip h d r i =
      pair _ _ (piece serve len nblocks skip ((h, d), r)) (piece-Same serve len nblocks skip h d r)
        (step len nblocks skip h d r i)

  again :
      (fuel n q skip : ℕ) (h : Host) (d : Data) (r : R) (h' : Host) (d' : Data) (r' : R)
      → Same h d h' d'
      → n * d.blksz - q * d.blksz ≡ (n - q) * d.blksz
      → q ≤ n
      → Returns {S = Going R} {A = Errno}
          (λ e s. is_success e ≡ true → Inv (skip + q * d.blksz + (n - q) * d'.blksz) s.0.1 s.1)
          (transfer_loop serve stops fuel
            ((n - q) * d'.blksz)
            (skip + q * d.blksz)
            ((h', counted (q * d.blksz) d'), r'))
      → Returns {S = Going R} {A = Errno}
          (λ e s. is_success e ≡ true → Inv (skip + n * d.blksz) s.0.1 s.1)
          (transfer_loop serve stops fuel
            (n * d.blksz - q * d.blksz)
            (skip + q * d.blksz)
            ((h', counted (q * d.blksz) d'), r'))
  again fuel n q skip h d r h' d' r' same rest top k =
      let e : (n - q) * d'.blksz ≡ n * d.blksz - q * d.blksz =
        ap (λ b. (n - q) * b) same.blksz ∙ sym rest in
      let whole : skip + q * d.blksz + (n - q) * d'.blksz ≡ skip + n * d.blksz =
        omega (arith, e, mul-le-mul_right d.blksz top) in
      let before = skip + q * d.blksz in
      weaken _ _
        (transfer_loop serve stops fuel (n * d.blksz - q * d.blksz) before
          ((h', counted (q * d.blksz) d'), r'))
        (subst
          (λ left.
            Returns {S = Going R} {A = Errno}
              (λ e s. is_success e ≡ true → Inv (before + (n - q) * d'.blksz) s.0.1 s.1)
              (transfer_loop serve stops fuel left before ((h', counted (q * d.blksz) d'), r')))
          e k)
        λ _ s inv y. subst (λ x. Inv x s.0.1 s.1) whole (inv y)

  pub loop-Inv :
      (fuel n skip : ℕ) (h : Host) (d : Data) (r : R)
      → n < fuel
      → Fits h d
      → Inv skip d r
      → Returns {S = Going R} {A = Errno}
          (λ e s. is_success e ≡ true → Inv (skip + n * d.blksz) s.0.1 s.1)
          (transfer_loop serve stops fuel (n * d.blksz) skip ((h, d), r))
  unfolding transfer_loop
  loop-Inv zero n skip h d r lt f i = absurd (omega (arith, lt))
  loop-Inv (suc fuel) zero skip h d r lt f i =
      rw (zero-mul d.blksz) λ _. subst (λ x. Inv x d r) (omega arith) i
  loop-Inv (suc fuel) (suc m) skip h d r lt f i =
      let q = round_blocks h d (suc m * d.blksz) in
      let (pos, top, rest) =
        whole_blocks (suc m) d.blksz h.data_max f.some_byte f.one_piece f.small (ground arith) in
      rw (some_left (suc m) d.blksz f.some_byte (ground arith))
        (elim (Bool-cases (h.xfer_stop || stops (suc m * d.blksz))) [
          | inl y ↦ rw y (λ e. absurd (ground arith))
          | inr n ↦ rw n (
              bind _ _ (piece serve (q * d.blksz) q skip ((h, d), r)) _
                (both (q * d.blksz) q skip h d r i)
                λ e s (same, inv). elim (Bool-cases (is_success e)) [
                  | inr bad ↦ rw bad (λ e. absurd (ground arith))
                  | inl ok ↦ rw ok (
                      again fuel (suc m) q skip h d r s.0.0 s.0.1 s.1 same rest top (
                        loop-Inv fuel (suc m - q) (skip + q * d.blksz) s.0.0
                          (counted (q * d.blksz) s.0.1) s.1 (omega (arith, pos, lt))
                          (record {
                            some_byte = ground (arith, same.blksz, f.some_byte);
                            one_piece = ground (arith, same.blksz, same.host, f.one_piece);
                            small = ground (arith, same.host, f.small);
                          })
                          (inv ok)))
                ])
        ])
