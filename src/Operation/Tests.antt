-- ===== src/Operation/Tests.antt =====
-- A connection with one outgoing operation, and the theorems at it.
use greybus.Base.{
  ℕ, ◌≡◌, refl, true, false, none, some, List, [], ◌∷◌, ◌==◌, arith, ◌≤◌, inl, inr, has, Distinct,
  Bool-cases, ==_iff, subst, ◌&&◌,
}
use greybus.Errno.{is_success, success, einprogress, ebadr, eio}
use greybus.Operation.Message.{Message, Header, header_size, read_header}
use greybus.Operation.State.{Operation, sync, World, enabled, update, is_enabled, pure, ◌>>=◌}
use greybus.Operation.Send.{Memory, request_send}
use greybus.Operation.Recv.{recv, recv_response, is_response}
use greybus.Operation.Invariant.{IsSound, Inv}
use greybus.Operation.Effects.{Returns}
use greybus.Operation.Request.{Requested, request_send-Requested}
use greybus.Operation.Wrap.{Twins, operation_id_repeats}
use greybus.Operation.Reply.{Received, recv_response-Received, recv-Inv}
use greybus.Operation.Overflow.{recv_overflows}
use greybus.Operation.Work.{no_protocol, work}
use greybus.Operation.Finish.{Finished, work-Finished}

abbrev ping : Message
ping = record { buffer = 8 ∷ 0 ∷ 1 ∷ 0 ∷ 2 ∷ 0 ∷ 0 ∷ 0 ∷ []; payload_size = 0 }

abbrev operation : Operation
operation = record {
  request = ping;
  response = some ping;
  incoming = false;
  unidirectional = false;
  type = 2;
  id = 1;
  errno = ebadr;
  callback = none;
  completed = false;
  kref = 1;
  waiters = 0;
  active = 0;
}

abbrev connection : List ℕ → Operation → World
connection l o = record {
  state = enabled;
  operations = l;
  op_cycle = 0;
  heap = update (λ q. none) 0 (some o);
  next = 1;
  wq = [];
  completion_wq = [];
  sent = [];
  cancelled = [];
  buffer_size_max = 2048;
}

abbrev idle : World
idle = connection [] operation

abbrev waiting : Operation
waiting = record operation { errno = einprogress; kref = 2; active = 1 }

abbrev busy : World
busy = connection (0 ∷ []) waiting

-- A world with this one operation satisfies the invariant if the operation is sound.
one-Inv :
    (l : List ℕ) (o : Operation)
    → Distinct l
    → ((p : ℕ) → has p l ≡ true → (0 == p) ≡ true)
    → IsSound l 0 o
    → Inv (connection l o)
one-Inv l o d only s = record {
  distinct = d;
  live = λ p h. ground (arith, only p h);
  fresh = λ p h. ground arith;
  sound = λ p r h. elim (Bool-cases (0 == p)) [
    | inl q ↦
        subst (λ k. IsSound l k r) ((==_iff 0 p).0 q) (subst (λ x. IsSound l 0 x) (ground arith) s)
    | inr n ↦ ground arith
  ];
}

idle-Inv : Inv idle
idle-Inv = one-Inv [] operation tt (λ p h. ground arith) (ground arith)

busy-Inv : Inv busy
busy-Inv = one-Inv (0 ∷ []) waiting (ground arith) (λ p h. ground arith) (ground arith)

abbrev memory : Memory
memory = record {
  operation = true;
  request = true;
  request_buffer = true;
  response = true;
  response_buffer = true;
}

-- A successful response with id 1 and no payload, and a request that says it has no bytes.
abbrev reply : List ℕ
reply = 8 ∷ 0 ∷ 1 ∷ 0 ∷ 0x82 ∷ 0 ∷ 0 ∷ 0 ∷ []

abbrev short : List ℕ
short = 0 ∷ 0 ∷ 5 ∷ 0 ∷ 2 ∷ 0 ∷ 0 ∷ 0 ∷ []

abbrev short_header : Header
short_header = record { size = 0; operation_id = 5; type = 2; result = 0 }

read_short : read_header short ≡ some short_header
unfolding read_header
read_short = refl

read_reply :
    read_header reply ≡ some (record { size = 8; operation_id = 1; type = 0x82; result = 0 })
unfolding read_header
read_reply = refl

abbrev pong : Header
pong = record { size = 8; operation_id = 513; type = 0x82; result = 0xff }

request_send-Requested_example :
    Returns (Requested 0 operation idle sync eio) (request_send 0 (some sync) eio idle)
request_send-Requested_example = request_send-Requested 0 operation sync eio idle idle-Inv refl

-- Two operations over a connection whose counter is about to wrap.
abbrev two : World
two = record idle { heap = update idle.heap 1 (some operation); next = 2; op_cycle = 4294967294 }

operation-IsSound : (p : ℕ) → IsSound [] p operation
operation-IsSound p = ground arith

two-Inv : Inv two
two-Inv = record {
  distinct = tt;
  live = λ p h. ground arith;
  fresh = λ p h. ground arith;
  sound = λ p r h. elim (Bool-cases (1 == p)) [
    | inl q ↦ subst (IsSound [] p) (ground arith) (operation-IsSound p)
    | inr n ↦ idle-Inv.sound p r (ground arith)
  ];
}

operation_id_repeats_example :
    Returns
      (λ (e, e') w'.
        Twins 0 1 operation operation e e' w'
        × (is_success e ≡ (is_enabled two.state && is_success success))
        × (is_success e' ≡ (is_enabled two.state && is_success eio)))
      ((do
        e ← request_send 0 (some sync) success
        e' ← request_send 1 (some sync) eio
        pure (e, e'))
        two)
operation_id_repeats_example =
    operation_id_repeats 0 1 operation operation sync sync success eio two two-Inv refl refl refl
      refl

recv_response-Received_example :
    Returns (λ _ w'. Received 1 0 8 busy w') (recv_response 1 0 reply 8 busy)
recv_response-Received_example =
    recv_response-Received 1 0 reply 8 busy busy-Inv (omega arith) (omega arith)

reply_long :
    (h : Header) → read_header reply ≡ some h → is_response h.type ≡ false → header_size ≤ h.size
unfolding read_header
reply_long h e n = ground arith

recv-Inv_example : Returns (λ _ w'. Inv w') (recv memory reply busy)
recv-Inv_example = recv-Inv memory reply busy busy-Inv (omega arith) reply_long

recv_overflows_example : recv memory short idle ≡ none
recv_overflows_example =
    recv_overflows memory short idle short_header refl read_short (omega arith) (omega arith) refl
      refl refl refl (omega arith)

-- A synchronous request that was answered, and a request that came in and waits for its answer.
abbrev answered : Operation
answered = record waiting { errno = success; callback = some sync }

abbrev done : World
done = connection (0 ∷ []) answered

done-Inv : Inv done
done-Inv = one-Inv (0 ∷ []) answered (ground arith) (λ p h. ground arith) (ground arith)

abbrev asked : Operation
asked = record operation { response = none; incoming = true; errno = einprogress; active = 1 }

abbrev serving : World
serving = connection (0 ∷ []) asked

work-Finished_example :
    Returns
      (λ _ w'. Finished 0 (record answered { completed = true }) done w')
      (work no_protocol (λ p w. none) memory success 0 done)
work-Finished_example =
    work-Finished 0 answered done done-Inv refl no_protocol (λ p w. none) memory success refl refl
      (omega arith)
