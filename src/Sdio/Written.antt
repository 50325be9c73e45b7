-- ===== src/Sdio/Written.antt =====
-- What an SDIO transfer that ends has done.
use native.Mathlib.Nat.{mul_comm}
use greybus.Base.{
  ℕ, append_nil, zero, suc, ◌+◌, ◌*◌, ◌%◌, ◌^◌, ◌<◌, ◌≡◌, refl, arith, ◌∙◌, ap, subst, sym, Bool,
  true, false, inl, inr, Bool-cases, ◌==◌, ◌&&◌, List, [], ◌∷◌, ◌++◌, length, ltb, take, drop,
}
use greybus.Base.Monad.{Returns, bind, weaken}
use greybus.Errno.{Errno, is_success}
use greybus.Sync.{Serve, operation_sync}
use greybus.Sdio.{
  transfer_request, Host, Data, Going, is_read, send, piece, transfer_loop, transfer,
}
use greybus.Sdio.Kind
use greybus.Sdio.Ended.{Fits, counted, piece-Same, loop-Inv}

left_lem :
    (d : Data) → d.blksz * d.blocks < 2 ^ 32 → d.blocks * d.blksz ≡ d.blksz * d.blocks % 2 ^ 32
left_lem d small = omega (arith, small, mul_comm d.blksz d.blocks)

module _ {R : Type 0} (serve : Serve R) (stops : ℕ → Bool) where
  -- What holds of every loop that succeeds holds of the transfer.
  transfer-Inv :
      (P : Data → R → Type 0) (fuel : ℕ) (h : Host) (d : Data) (r : R)
      → d.blksz * d.blocks < 2 ^ 32
      → ((d' : Data) (r' : R) (e : Errno) → P d' r' → P (record d' { error = e }) r')
      → Returns {S = Going R} {A = Errno}
          (λ e s. is_success e ≡ true → P s.0.1 s.1)
          (transfer_loop serve stops fuel (d.blocks * d.blksz) 0 ((h, d), r))
      → Returns {S = Going R} {A = Errno}
          (λ e s. (s.0.1.error ≡ e) × (is_success e ≡ true → P s.0.1 s.1))
          (transfer serve stops fuel ((h, d), r))
  unfolding transfer
  transfer-Inv P fuel h d r small keep k =
      elim (Bool-cases (Kind.is_single d.opcode && ltb 1 d.blocks)) [
        | inl y ↦ rw y (refl, λ e. absurd (ground arith))
        | inr n ↦ rw n (
            bind _ _ (transfer_loop serve stops fuel (d.blksz * d.blocks % 2 ^ 32) 0 ((h, d), r)) _
              (subst
                (λ left.
                  Returns {S = Going R} {A = Errno} (λ e s. is_success e ≡ true → P s.0.1 s.1)
                    (transfer_loop serve stops fuel left 0 ((h, d), r)))
                (left_lem d small) k)
              λ e s p. (refl, λ y. keep s.0.1 s.1 e (p y)))
      ]

  -- A transfer whose blocks fit in one piece, of less than 4 GiB, ends after at most as many rounds as
  -- it has blocks, whatever is answered and whenever a stop is asked for. Its error is its result, and
  -- on success all its bytes were counted.
  pub transfer-Ended :
      (fuel : ℕ) (h : Host) (d : Data) (r : R)
      → d.blksz * d.blocks < 2 ^ 32
      → d.blocks < fuel
      → Fits h d
      → Returns {S = Going R} {A = Errno}
          (λ e s.
            (s.0.1.error ≡ e)
            × (is_success e ≡ true → s.0.1.bytes_xfered ≡ d.bytes_xfered + d.blksz * d.blocks))
          (transfer serve stops fuel ((h, d), r))
  transfer-Ended fuel h d r small lt f =
      transfer-Inv (λ d' _. d'.bytes_xfered ≡ d.bytes_xfered + d.blksz * d.blocks) fuel h d r small
        (λ _ _ _ x. x)
        (weaken _ _ (transfer_loop serve stops fuel (d.blocks * d.blksz) 0 ((h, d), r))
          (loop-Inv serve stops (λ skip d' _. d'.bytes_xfered ≡ d.bytes_xfered + skip)
            (λ len nblocks skip h' d' r' i.
              weaken _ _ (piece serve len nblocks skip ((h', d'), r'))
                (piece-Same serve len nblocks skip h' d' r')
                λ _ s same y. omega (arith, same.xfered, i))
            fuel d.blocks 0 h d r lt f (omega arith))
          λ _ s x y. omega (arith, x y, mul_comm d.blksz d.blocks))

take_nil : {A : Type 0} (n : ℕ) → take {A = A} n [] ≡ []
take_nil zero = refl
take_nil (suc n) = refl

-- Two pieces one behind the other.
take-append-drop :
    {A : Type 0} (n m k : ℕ) (xs : List A) → n + m ≡ k → take n xs ++ take m (drop n xs) ≡ take k xs
take-append-drop zero m k xs e = ap (λ k. take k xs) (omega (arith, e))
take-append-drop (suc n) m zero xs e = absurd (omega (arith, e))
take-append-drop (suc n) m (suc k) [] e = take_nil m
take-append-drop (suc n) m (suc k) (x ∷ xs) e =
    ap (◌∷◌ x) (take-append-drop n m k xs (omega (arith, e)))

++_assoc : {A : Type 0} (xs ys zs : List A) → (xs ++ ys) ++ zs ≡ xs ++ (ys ++ zs)
++_assoc [] ys zs = refl
++_assoc (x ∷ xs) ys zs = ap (◌∷◌ x) (++_assoc xs ys zs)

module _ {R : Type 0} (serve : Serve R) (stops : ℕ → Bool) (data_of : R → List ℕ)
    (keeps : (payload : List ℕ) (r : R)
      → data_of (serve Kind.transfer payload r).1 ≡ data_of r ++ drop 5 payload) where
  -- The data that came before, and the first bytes of this transfer's.
  abbrev Sent : List ℕ → Data → ℕ → Data → R → Type 0
  Sent before d skip d' r =
      (is_read d' ≡ false) × ((d'.bytes ≡ d.bytes) × (data_of r ≡ before ++ take skip d.bytes))

  send-Sent :
      (before : List ℕ) (d : Data) (len nblocks skip : ℕ) (h : Host) (d' : Data) (r : R)
      → Sent before d skip d' r
      → Returns {S = Going R} {A = Errno}
          (λ e s. is_success e ≡ true → Sent before d (skip + len) (counted len s.0.1) s.1)
          (send serve len nblocks skip ((h, d'), r))
  unfolding send operation_sync transfer_request
  send-Sent before d len nblocks skip h d' r (write, (same, sent)) =
      let chunk = take len (drop skip d'.bytes) in
      elim (Bool-cases (length chunk == len)) [
        | inr n ↦ rw n (λ e. absurd (ground arith))
        | inl y ↦ rw y (λ _. (
          write,
          (
            same,
            keeps (transfer_request d' nblocks ++ chunk) r
                ∙ ap (λ xs. xs ++ chunk) sent
                ∙ ++_assoc before (take skip d.bytes) chunk
                ∙ ap (λ bs. before ++ (take skip d.bytes ++ take len (drop skip bs))) same
                ∙ ap (◌++◌ before) (take-append-drop skip len (skip + len) d.bytes refl),
          ),
        ))
      ]

  piece-Sent :
      (before : List ℕ) (d : Data) (len nblocks skip : ℕ) (h : Host) (d' : Data) (r : R)
      → Sent before d skip d' r
      → Returns {S = Going R} {A = Errno}
          (λ e s. is_success e ≡ true → Sent before d (skip + len) (counted len s.0.1) s.1)
          (piece serve len nblocks skip ((h, d'), r))
  unfolding piece
  piece-Sent before d len nblocks skip h d' r sent =
      rw sent.0 (send-Sent before d len nblocks skip h d' r sent)

  -- What a successful write sends behind the requests, put together by the other end, is the data: each
  -- byte once and in order.
  pub transfer_written :
      (fuel : ℕ) (h : Host) (d : Data) (r : R)
      → d.blksz * d.blocks < 2 ^ 32
      → d.blocks < fuel
      → Fits h d
      → is_read d ≡ false
      → Returns {S = Going R} {A = Errno}
          (λ e s.
            is_success e ≡ true → data_of s.1 ≡ data_of r ++ take (d.blksz * d.blocks) d.bytes)
          (transfer serve stops fuel ((h, d), r))
  transfer_written fuel h d r small lt f write =
      weaken _ _ (transfer serve stops fuel ((h, d), r))
        (transfer-Inv serve stops
          (λ _ r'. data_of r' ≡ data_of r ++ take (d.blksz * d.blocks) d.bytes) fuel h d r small
          (λ _ _ _ x. x)
          (weaken _ _ (transfer_loop serve stops fuel (d.blocks * d.blksz) 0 ((h, d), r))
            (loop-Inv serve stops (Sent (data_of r) d) (piece-Sent (data_of r) d) fuel d.blocks 0 h
              d r lt f (write, (refl, sym (append_nil (data_of r)))))
            λ _ s x y.
              (x y).1.1
              ∙ ap (λ n. data_of r ++ take n d.bytes) (omega (arith, mul_comm d.blksz d.blocks))))
        λ _ _ x. x.1
