-- ===== src/Spi/Message.antt =====
-- An SPI message that the other end answers.
use greybus.Base.{
  ℕ, append_nil, ◌+◌, ◌*◌, ◌^◌, ◌≤◌, ◌<◌, ◌≡◌, refl, true, Option, none, some, List, [], ◌∷◌, ◌++◌,
  length, take, drop, drop_all, arith, All, ◌∙◌, ap, sym, length-append, take-append, drop-append,
}
use greybus.Errno.{success}
use greybus.Spi.{Xfer, decode_response, transfer_one_message}
use greybus.Spi.Layout.{HasLength, IsWhole, total, data_of, incoming, operation_create_lem}

-- Buffers before and after: new data of the same length, where there is a buffer.
abbrev pub Filled : ℕ → Option (List ℕ) → Option (List ℕ) → Type 0
Filled n none none = Unit
Filled n none (some b) = ⊥
Filled n (some a) none = ⊥
Filled n (some a) (some b) = n ≡ length b

-- The transfers after a message: their buffers for incoming data are filled, and the rest is as before.
abbrev pub Answers : List Xfer → List Xfer → Type 0
Answers [] [] = Unit
Answers [] (y ∷ ys) = ⊥
Answers (x ∷ xs) [] = ⊥
Answers (x ∷ xs) (y ∷ ys) =
    ((y ≡ record x { rx_buf = y.rx_buf }) × Filled x.len x.rx_buf y.rx_buf) × Answers xs ys

decode_skip :
    (x : Xfer) (xs rest : List Xfer) (response : List ℕ)
    → x.rx_buf ≡ none
    → decode_response xs response ≡ some rest
    → decode_response (x ∷ xs) response ≡ some (x ∷ rest)
unfolding decode_response
decode_skip x xs rest response e k = ground (arith, e, k)

decode_fill :
    (x : Xfer) (xs rest : List Xfer) (buf response : List ℕ)
    → x.rx_buf ≡ some buf
    → x.len ≤ length response
    → x.len ≤ length buf
    → decode_response xs (drop x.len response) ≡ some rest
    → decode_response (x ∷ xs) response
      ≡ some (record x { rx_buf = some (take x.len response ++ drop x.len buf) } ∷ rest)
unfolding decode_response
decode_fill x xs rest buf response e a b k = ground (arith, e, a, b, k)

decode_one :
    (x y : Xfer) (xs ys : List Xfer) (o o' : Option (List ℕ))
    → x.rx_buf ≡ o
    → y.rx_buf ≡ o'
    → HasLength x.len o
    → Filled x.len o o'
    → y ≡ record x { rx_buf = o' }
    → decode_response xs (incoming ys) ≡ some ys
    → decode_response (x ∷ xs) (data_of o' ++ incoming ys) ≡ some (y ∷ ys)
decode_one x y xs ys none none e e' w f same k =
    decode_skip x xs ys (incoming ys) e k
    ∙ ap (λ x. some (x ∷ ys)) (ap (λ b. record x { rx_buf = b }) e ∙ sym same)
decode_one x y xs ys none (some b) e e' w f same k = absurd f
decode_one x y xs ys (some a) none e e' w f same k = absurd f
decode_one x y xs ys (some a) (some b) e e' w f same k =
    let head : take x.len (b ++ incoming ys) ≡ b = rw f (take-append b (incoming ys)) in
    let tail : drop x.len (b ++ incoming ys) ≡ incoming ys = rw f (drop-append b (incoming ys)) in
    decode_fill x xs ys a (b ++ incoming ys) e (omega (arith, f, length-append b (incoming ys)))
      (omega (arith, w)) (ap (decode_response xs) tail ∙ k)
    ∙ ap (λ b. some (record x { rx_buf = some b } ∷ ys))
        (ap (λ c. c ++ drop x.len a) head ∙ ap (λ c. b ++ c) (drop_all x.len a w) ∙ append_nil b)
    ∙ ap (λ y. some (y ∷ ys)) (sym same)

decode_response-incoming :
    (xs ys : List Xfer)
    → All IsWhole xs
    → Answers xs ys
    → decode_response xs (incoming ys) ≡ some ys
unfolding decode_response
decode_response-incoming [] [] w a = refl
decode_response-incoming [] (y ∷ ys) w a = absurd a
decode_response-incoming (x ∷ xs) [] w a = absurd a
decode_response-incoming (x ∷ xs) (y ∷ ys) (w, ws) ((same, f), a) =
    decode_one x y xs ys x.rx_buf y.rx_buf refl refl w.rx f same
      (decode_response-incoming xs ys ws a)

-- A message of at most 65535 transfers, each with a buffer, and buffers of its length, whose request
-- has less than 4 GiB, that the other end answers with the data for its buffers one behind the other:
-- it does not fault and succeeds, its length is the sum of the transfers', and each buffer for
-- incoming data has its own data, and all else is as before.
pub transfer_one_message-Answers :
    (chip_select mode : ℕ) (xs ys : List Xfer)
    → All IsWhole xs
    → length xs ≤ 65535
    → 4 + length xs * 12 + total xs < 2 ^ 32
    → Answers xs ys
    → transfer_one_message true (λ payload size. (success, incoming ys)) chip_select mode xs
      ≡ some (record {
        ret = success;
        actual_length = some (total xs);
        status = some success;
        transfers = ys;
      })
unfolding transfer_one_message
transfer_one_message-Answers chip_select mode xs ys w few b a =
    rw (operation_create_lem chip_select mode xs w few b, transfer_one_message)
      (rw (decode_response-incoming xs ys w a) refl)
