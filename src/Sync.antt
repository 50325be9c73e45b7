-- ===== src/Sync.antt =====
-- gb_operation_sync, operation.c, as a driver sees it: a request goes out and an answer comes back.
-- The operation core, the transport and the other end are one parameter, a state and what it answers.
use greybus.Base.{ℕ, some, List, [], ◌≡◌, ◌==◌, if◌then◌else◌, length, arith, inl, inr, Bool-cases}
use greybus.Base.Monad.{Call}
use greybus.Errno.{Errno, success, enomem, emsgsize}

-- `no_operation`: gb_operation_create gives NULL. Otherwise the result of the operation, which may be
-- a time-out, and the payload of the response.
pub data Answer : Type 0 where
  no_operation : Answer
  answered : Errno → List ℕ → Answer

-- What answers a request: its type, its payload, and the state that answering changes.
abbrev pub Serve : Type 0 → Type 0
Serve R = ℕ → List ℕ → R → Answer × R

-- What gb_operation_sync gives for an answer: a response of another size than the one that was asked
-- for is -EMSGSIZE, as gb_connection_recv_response has it, and a failure has no payload.
unfoldable pub received : ℕ → Answer → Errno × List ℕ
received size no_operation = (enomem, [])
received size (answered success bytes) =
    if length bytes == size then (success, bytes) else (emsgsize, [])
received size (answered e bytes) = (e, [])

-- gb_operation_sync; `S` is the driver's own state, which it leaves.
unfoldable pub operation_sync :
    {S R : Type 0} → Serve R → ℕ → List ℕ → ℕ → Call (S × R) (Errno × List ℕ)
operation_sync serve type request size (s, r) =
    let (answer, r') = serve type request r in some (received size answer, (s, r'))

-- The response of an operation that succeeded has the size that was asked for.
pub length-received :
    (size : ℕ) (answer : Answer)
    → (received size answer).0 ≡ success
    → length (received size answer).1 ≡ size
unfolding received
length-received size no_operation e = ground arith
length-received size (answered success bytes) e = elim (Bool-cases (length bytes == size)) [
  | inl y ↦ ground arith
  | inr n ↦ ground arith
]
length-received size (answered _ bytes) e = ground arith
