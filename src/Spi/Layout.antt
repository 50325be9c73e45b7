-- ===== src/Spi/Layout.antt =====
-- The layout of an SPI message: what goes out fits the request, and what comes in goes where it belongs.
use greybus.Base.{
  ℕ, ◌+◌, ◌*◌, ◌%◌, ◌^◌, ◌≤◌, ◌<◌, ◌≡◌, refl, true, false, Option, none, some, List, [], ◌∷◌, ◌++◌,
  ltb, is_some, ◌||◌, length, take_all, arith, All, ◌∙◌, ap, sym, length-append,
}
use greybus.Operation.Message.{low, high}
use greybus.Spi.{
  Xfer, Sizes, more, sizes, fill_xfer, fill_xfers, copy_tx, created, request_size, operation_create,
}

-- A buffer, if it is there, has this length.
abbrev pub HasLength : ℕ → Option (List ℕ) → Type 0
HasLength n none = Unit
HasLength n (some buf) = n ≡ length buf

-- A transfer as the kernel passes it on: it has a buffer, and its buffers have its length.
pub record IsWhole (x : Xfer) : Type 0 where
  pub some_buffer : (is_some x.tx_buf || is_some x.rx_buf) ≡ true
  pub tx : HasLength x.len x.tx_buf
  pub rx : HasLength x.len x.rx_buf

abbrev pub total : List Xfer → ℕ
total [] = 0
total (x ∷ xs) = x.len + total xs

abbrev pub data_of : Option (List ℕ) → List ℕ
data_of none = []
data_of (some buf) = buf

abbrev pub incoming : List Xfer → List ℕ
incoming [] = []
incoming (x ∷ xs) = data_of x.rx_buf ++ incoming xs

abbrev pub outgoing : List Xfer → List ℕ
outgoing [] = []
outgoing (x ∷ xs) = data_of x.tx_buf ++ outgoing xs

copy_one :
    (x : Xfer) (xs : List Xfer) (o : Option (List ℕ))
    → x.tx_buf ≡ o
    → HasLength x.len o
    → copy_tx xs ≡ some (outgoing xs)
    → copy_tx (x ∷ xs) ≡ some (data_of o ++ outgoing xs)
unfolding copy_tx
copy_one x xs none e w i = ground (arith, e, i)
copy_one x xs (some buf) e w i = ground (arith, e, i, w, take_all x.len buf w)

copy_tx_lem : (xs : List Xfer) → All IsWhole xs → copy_tx xs ≡ some (outgoing xs)
unfolding copy_tx
copy_tx_lem [] a = refl
copy_tx_lem (x ∷ xs) (w, a) = copy_one x xs x.tx_buf refl w.tx (copy_tx_lem xs a)

length-fill_xfers : (xs : List Xfer) → length (fill_xfers xs) ≡ length xs * 12
unfolding fill_xfers fill_xfer
length-fill_xfers [] = refl
length-fill_xfers (x ∷ xs) = omega (arith, length-fill_xfers xs)

more_lem :
    (o : Option (List ℕ)) (len n : ℕ)
    → HasLength len o
    → len + n < 2 ^ 32
    → more o len n ≡ length (data_of o) + n
more_lem none len n w b = omega arith
more_lem (some buf) len n w b = omega (arith, w, b)

length-data_of : (o : Option (List ℕ)) (n : ℕ) → HasLength n o → length (data_of o) ≤ n
length-data_of none n w = omega arith
length-data_of (some buf) n w = omega (arith, w)

length-outgoing : (xs : List Xfer) → All IsWhole xs → length (outgoing xs) ≤ total xs
length-outgoing [] a = omega arith
length-outgoing (x ∷ xs) (w, a) = omega (
  arith,
  length-append (data_of x.tx_buf) (outgoing xs),
  length-data_of x.tx_buf x.len w.tx,
  length-outgoing xs a,
)

length-incoming : (xs : List Xfer) → All IsWhole xs → length (incoming xs) ≤ total xs
length-incoming [] a = omega arith
length-incoming (x ∷ xs) (w, a) = omega (
  arith,
  length-append (data_of x.rx_buf) (incoming xs),
  length-data_of x.rx_buf x.len w.rx,
  length-incoming xs a,
)

-- The sizes of the data.
abbrev size_of : List Xfer → Sizes
size_of xs = record { tx = length (outgoing xs); rx = length (incoming xs); total = total xs }

sizes_lem : (xs : List Xfer) → All IsWhole xs → total xs < 2 ^ 32 → sizes xs ≡ some (size_of xs)
unfolding sizes
sizes_lem [] a b = refl
sizes_lem (x ∷ xs) (w, a) b =
    let rest = sizes_lem xs a (omega (arith, b)) in
    let tx : more x.tx_buf x.len (length (outgoing xs)) ≡ length (outgoing (x ∷ xs)) =
      more_lem x.tx_buf x.len _ w.tx (omega (arith, b, length-outgoing xs a))
      ∙ sym (length-append (data_of x.tx_buf) (outgoing xs)) in
    let rx : more x.rx_buf x.len (length (incoming xs)) ≡ length (incoming (x ∷ xs)) =
      more_lem x.rx_buf x.len _ w.rx (omega (arith, b, length-incoming xs a))
      ∙ sym (length-append (data_of x.rx_buf) (incoming xs)) in
    let all : (x.len + total xs) % 2 ^ 32 ≡ x.len + total xs = omega (arith, b) in
    rw (rest, sizes)
      (rw (w.some_buffer) (
        ap
          (λ n. some (record {
            tx = n;
            rx = more x.rx_buf x.len (length (incoming xs));
            total = (x.len + total xs) % 2 ^ 32;
          }))
          tx
        ∙ ap
            (λ n. some (record {
              tx = length (outgoing (x ∷ xs));
              rx = n;
              total = (x.len + total xs) % 2 ^ 32;
            }))
            rx
        ∙ ap
            (λ n. some (record {
              tx = length (outgoing (x ∷ xs));
              rx = length (incoming (x ∷ xs));
              total = n;
            }))
            all))

-- The payload of the request.
abbrev pub request_payload : ℕ → ℕ → List Xfer → List ℕ
request_payload chip_select mode xs =
    chip_select % 256
    ∷ mode % 256
    ∷ low (length xs)
    ∷ high (length xs)
    ∷ (fill_xfers xs ++ outgoing xs)

pub operation_create_lem :
    (chip_select mode : ℕ) (xs : List Xfer)
    → All IsWhole xs
    → length xs ≤ 65535
    → 4 + length xs * 12 + total xs < 2 ^ 32
    → operation_create true chip_select mode xs
      ≡ some (created (request_payload chip_select mode xs) (length (incoming xs)) (total xs))
unfolding operation_create
operation_create_lem chip_select mode xs a few b =
    let known = sizes_lem xs a (omega (arith, b)) in
    let out = length-outgoing xs a in
    let count : ltb 65535 (length xs) ≡ false = ground (arith, few) in
    let within : ltb (request_size xs (size_of xs)) (length (request_payload chip_select mode xs))
        ≡ false =
      ground (arith, length-append (fill_xfers xs) (outgoing xs), length-fill_xfers xs, out, b) in
    rw (known, operation_create) (rw (count, copy_tx_lem xs a) (rw within refl))
