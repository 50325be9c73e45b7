-- ===== src/Sdio/Endless.antt =====
-- An SDIO transfer whose blocks are larger than a piece.
use native.Mathlib.Nat.{div-eq_of_lt, zero-mul}
use greybus.Base.{
  ℕ, zero, suc, min, ◌+◌, ◌*◌, ◌-◌, ◌/◌, ◌%◌, ◌^◌, ◌<◌, ◌≡◌, refl, arith, ap, ◌∙◌, false, none,
  some, List, [], ◌∷◌, ==_ne, ◌++◌, ◌||◌,
}
use greybus.Errno.{success}
use greybus.Sync.{Serve, answered, received, operation_sync}
use greybus.Sdio.{
  Host, Data, is_read, round_blocks, claimed, send, piece, transfer_loop, transfer_request,
}
use greybus.Sdio.Ended.{counted}
use greybus.Sdio.Kind

no_blocks :
    (h : Host) (d : Data) (left : ℕ)
    → h.data_max < d.blksz
    → min left h.data_max / d.blksz % 2 ^ 16 ≡ 0
no_blocks h d left big = ap (λ q. q % 2 ^ 16) (div-eq_of_lt (omega (arith, big)))

not_stopped : (h : Host) → h.xfer_stop ≡ false → (h.xfer_stop || false) ≡ false
not_stopped h e = ground (arith, e)

abbrev pub nothing : List ℕ
nothing = 0 ∷ 0 ∷ 0 ∷ 0 ∷ []

module _ {R : Type 0} (serve : Serve R)
    (accepts : (payload : List ℕ) (r : R)
      → (serve Kind.transfer payload r).0 ≡ answered success nothing) where
  empty_piece :
      (skip : ℕ) (h : Host) (d : Data) (r : R)
      → is_read d ≡ false
      → piece serve 0 0 skip ((h, d), r)
        ≡ some (success, ((h, d), (serve Kind.transfer (transfer_request d 0 ++ []) r).1))
  unfolding piece send operation_sync claimed received
  empty_piece skip h d r write = rw (write, accepts (transfer_request d 0 ++ []) r) refl

  -- A write of data whose blocks are larger than what one piece can hold goes round without end, if the
  -- other end takes each of its empty pieces and nobody asks for a stop: it runs out of any fuel.
  pub transfer_loop_endless :
      (fuel left skip : ℕ) (h : Host) (d : Data) (r : R)
      → 0 < left
      → h.data_max < d.blksz
      → is_read d ≡ false
      → h.xfer_stop ≡ false
      → transfer_loop serve (λ _. false) fuel left skip ((h, d), r) ≡ none
  unfolding transfer_loop
  transfer_loop_endless zero left skip h d r some_left big write going = refl
  transfer_loop_endless (suc fuel) left skip h d r some_left big write going =
      let q = round_blocks h d left in
      let none_left : q * d.blksz ≡ 0 =
        ap (λ q. q * d.blksz) (no_blocks h d left big) ∙ zero-mul d.blksz in
      let sent : piece serve (q * d.blksz) q skip ((h, d), r)
          ≡ some (success, ((h, d), (serve Kind.transfer (transfer_request d 0 ++ []) r).1)) =
        ap (λ n. piece serve n q skip ((h, d), r)) none_left
        ∙ ap (λ q. piece serve 0 q skip ((h, d), r)) (no_blocks h d left big)
        ∙ empty_piece skip h d r write in
      rw (==_ne left 0 (omega (arith, some_left)), not_stopped h going, sent)
        (transfer_loop_endless fuel (left - q * d.blksz) (skip + q * d.blksz) h
          (counted (q * d.blksz) d) _ (omega (arith, some_left, none_left)) big write going)
