-- ===== src/Raw/Tests.antt =====
-- A page of four bytes: a message is received and read.
use greybus.Base.{ℕ, ◌≡◌, refl, true, some, List, [], ◌∷◌, ◌++◌, arith}
use greybus.Errno.{success}
use greybus.Raw.{Raw, Count, bytes, copy, keep_data, receive_data, receive, read}
use greybus.Raw.Fifo.{IsValid, messages}
use greybus.Raw.Queue.{Taken, read-Taken, start, received, asked, Run_fifo, empty}

abbrev payload : List ℕ
payload = 3 ∷ 0 ∷ 0 ∷ 0 ∷ 7 ∷ 8 ∷ 9 ∷ []

abbrev filled : Raw
filled = record { list = record { len = 3; content = 7 ∷ 8 ∷ 9 ∷ [] } ∷ []; list_data = 3 }

receive_once : receive 4 true empty 2 payload ≡ some (success, filled)
unfolding receive receive_data keep_data copy
receive_once = refl

read_back : read filled 8 true ≡ some (bytes 3, (7 ∷ 8 ∷ 9 ∷ [], empty))
unfolding read copy
read_back = refl

empty-IsValid : IsValid 4 empty
empty-IsValid = record { count = refl; bounded = ground arith; lengths = tt }

filled-IsValid : IsValid 4 filled
filled-IsValid = record {
  count = refl;
  bounded = ground arith;
  lengths = ((refl, ground arith, ground arith), tt);
}

read-Taken_example :
    (n : Count) × (got : List ℕ) × (raw' : Raw) × (read filled 2 true ≡ some (n, (got, raw')))
    × IsValid 4 raw'
    × Taken filled 2 true n got raw'
read-Taken_example = read-Taken 4 filled 2 true filled-IsValid

Run_fifo_example :
    IsValid 4 empty × ((7 ∷ 8 ∷ 9 ∷ []) ∷ [] ≡ ((7 ∷ 8 ∷ 9 ∷ []) ∷ []) ++ messages empty)
Run_fifo_example = Run_fifo 4 ((7 ∷ 8 ∷ 9 ∷ []) ∷ []) ((7 ∷ 8 ∷ 9 ∷ []) ∷ []) empty (ground arith) (
    asked 8 true (bytes 3) (7 ∷ 8 ∷ 9 ∷ [])
      (received true 2 payload success start (ground arith) receive_once) read_back)
