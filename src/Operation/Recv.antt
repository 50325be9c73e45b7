-- ===== src/Operation/Recv.antt =====
-- Receiving: gb_connection_recv and its two halves, for requests and for responses.
use Prim.Native.Nat.{bit_and}
use greybus.Base.{
  ℕ, ◌+◌, ◌-◌, ◌%◌, ◌^◌, Bool, true, Option, none, some, List, ◌==◌, if◌then◌else◌, not, ◌&&◌, ltb,
  length,
}
use greybus.Errno.{Errno, einprogress, emsgsize, is_success}
use greybus.Operation.Message.{
  Message, Header, header_size, message_type_response, read_header, memcpy,
}
use greybus.Operation.Status.{status_map}
use greybus.Operation.State.{
  Operation, M, pure, ◌>>=◌, ◌>>◌, with_op, is_enabled, load, get_active, put, result_set,
  queue_completion, queue_request, find_outgoing,
}
use greybus.Operation.Send.{Memory, create_common}

-- operation->id = id; memcpy(operation->request->header, data, size)
unfoldable pub fill_request : ℕ → ℕ → ℕ → List ℕ → M (Unit {0})
fill_request p id size bytes w = elim (w.heap p) [
  | none ↦ none
  | some o ↦ elim (memcpy size bytes o.request.buffer) [
    | none ↦ none
    | some out ↦
        some (tt, with_op w p (record o { id = id; request = record (o.request) { buffer = out } }))
  ]
]

abbrev pub fill_created : ℕ → ℕ → List ℕ → Option ℕ → M (Option ℕ)
fill_created id size bytes none = pure none
fill_created id size bytes (some p) = do fill_request p id size bytes; pure (some p)

-- gb_operation_create_incoming. `size - sizeof(header)` is a size_t: it wraps below zero.
unfoldable pub create_incoming : Memory → ℕ → ℕ → List ℕ → ℕ → M (Option ℕ)
create_incoming mem id type bytes size = do
  let request_size = (size + 2 ^ 64 - header_size) % 2 ^ 64
  created ← create_common mem type request_size 0 true (id == 0)
  fill_created id size bytes created

abbrev pub accept_request : Option ℕ → M (Unit {0})
accept_request none = pure tt
accept_request (some p) = do
  ret ← get_active p
  if not (is_success ret)
      then put p
      else do recorded ← result_set p einprogress; if recorded then queue_request p else pure tt

-- gb_connection_recv_request
unfoldable pub recv_request : Memory → ℕ → ℕ → List ℕ → ℕ → M (Unit {0})
recv_request mem id type bytes size = do
  created ← create_incoming mem id type bytes size
  accept_request created

-- The result that a response stands for: its status, or -EMSGSIZE for a success of the wrong size.
unfoldable pub response_errno : ℕ → ℕ → Message → Errno
response_errno result size m =
    let errno = status_map result in
    if is_success errno && not (size == header_size + m.payload_size) then emsgsize else errno

-- memcpy(message->header, data, size) into the response of an operation.
unfoldable pub fill_response : ℕ → ℕ → List ℕ → M (Unit {0})
fill_response p size bytes w = elim (w.heap p) [
  | none ↦ none
  | some o ↦ elim o.response [
    | none ↦ none
    | some m ↦ elim (memcpy size bytes m.buffer) [
      | none ↦ none
      | some out ↦ some (tt, with_op w p (record o { response = some (record m { buffer = out }) }))
    ]
  ]
]

-- How many bytes of a response are kept: only the header of a failed one.
abbrev pub kept : Errno → ℕ → ℕ
kept errno size = if is_success errno then size else header_size

abbrev pub complete_response : ℕ → ℕ → List ℕ → ℕ → Operation → M (Unit {0})
complete_response p result bytes size o = elim o.response [
  | none ↦ λ w. none
  | some m ↦ do
    let errno = response_errno result size m
    recorded ← result_set p errno
    if recorded then (do fill_response p (kept errno size) bytes; queue_completion p) else pure tt
    put p
]

abbrev pub take_response : ℕ → List ℕ → ℕ → Option ℕ → M (Unit {0})
take_response result bytes size none = pure tt
take_response result bytes size (some p) = do o ← load p; complete_response p result bytes size o

-- gb_connection_recv_response
unfoldable pub recv_response : ℕ → ℕ → List ℕ → ℕ → M (Unit {0})
recv_response id result bytes size = do
  found ← find_outgoing id
  take_response result bytes size found

-- The most significant bit of a header's type.
abbrev pub is_response : ℕ → Bool
is_response type = not (bit_and type message_type_response == 0)

abbrev pub dispatch : Memory → List ℕ → Header → M (Unit {0})
dispatch mem bytes h =
    if ltb (length bytes) h.size
    then pure tt
    else if is_response h.type
    then recv_response h.operation_id h.result bytes h.size
    else recv_request mem h.operation_id h.type bytes h.size

-- gb_connection_recv. The list is the received data, as long as the source's `size`.
unfoldable pub recv : Memory → List ℕ → M (Unit {0})
recv mem bytes w =
    if not (is_enabled w.state)
    then some (tt, w)
    else if ltb (length bytes) header_size
    then some (tt, w)
    else elim (read_header bytes) [ none ↦ none | some h ↦ dispatch mem bytes h w ]
