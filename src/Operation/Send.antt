-- ===== src/Operation/Send.antt =====
-- Creating and sending: gb_operation_create, gb_operation_request_send and
-- gb_operation_response_send.
use Prim.Native.Nat.{bit_and, bit_or}
use greybus.Base.{
  ℕ, ◌+◌, ◌%◌, ◌^◌, Bool, true, false, Option, none, some, ◌==◌, if◌then◌else◌, not, ◌&&◌, is_some,
}
use greybus.Errno.{Errno, success, einprogress, ebadr, enomem, einval, eio, is_success}
use greybus.Operation.Message.{
  Message, message_type_response, message_alloc, set_operation_id, copy_operation_id, set_result,
}
use greybus.Operation.State.{
  Operation, Callback, M, pure, ◌>>=◌, ◌>>◌, update, with_op, load, modify, get_active, put_active,
  get, put, result_set, message_send,
}
use greybus.Operation.Status.{errno_map}

-- The answers of the allocator to the allocations of one call.
pub record Memory : Type 0 where
  pub operation : Bool
  pub request : Bool
  pub request_buffer : Bool
  pub response : Bool
  pub response_buffer : Bool

-- A write into memory: `none` is out of bounds.
abbrev pub lift : {A : Type 0} → Option A → M A
lift none w = none
lift (some a) w = some (a, w)

-- gb_operation_response_alloc, on the operation: the new operation, or a null pointer for the response.
unfoldable pub response_alloc : ℕ → Memory → ℕ → Operation → Option (Option Operation)
response_alloc buffer_size_max mem response_size o =
    elim (message_alloc buffer_size_max (bit_or o.type message_type_response) response_size
      mem.response mem.response_buffer) [
        | none ↦ none
        | some none ↦ some none
        | some (some m) ↦ elim (copy_operation_id o.request.buffer m.buffer) [
          | none ↦ none
          | some bytes ↦ some (some (record o { response = some (record m { buffer = bytes }) }))
        ]
      ]

abbrev pub zeroed : Message → Operation
zeroed m = record {
  request = m;
  response = none;
  incoming = false;
  unidirectional = false;
  type = 0;
  id = 0;
  errno = success;
  callback = none;
  completed = false;
  kref = 0;
  waiters = 0;
  active = 0;
}

-- The last lines of gb_operation_create_common: flags, type, the initial result and reference.
abbrev pub initialised : ℕ → Bool → Bool → Operation → Operation
initialised type incoming unidirectional o = record o {
  incoming = incoming;
  unidirectional = unidirectional;
  type = type;
  errno = ebadr;
  kref = 1;
}

abbrev pub publish : Operation → M (Option ℕ)
publish o w =
    some (some w.next, record w { heap = update w.heap w.next (some o); next = w.next + 1 })

-- gb_operation_create_common. The operation's type is still 0 when its response is allocated.
unfoldable pub create_common : Memory → ℕ → ℕ → ℕ → Bool → Bool → M (Option ℕ)
create_common mem type request_size response_size incoming unidirectional w =
    if not mem.operation
    then some (none, w)
    else elim (message_alloc w.buffer_size_max type request_size mem.request mem.request_buffer) [
      | none ↦ none
      | some none ↦ some (none, w)
      | some (some m) ↦
          if incoming
          then publish (initialised type incoming unidirectional (zeroed m)) w
          else elim (response_alloc w.buffer_size_max mem response_size (zeroed m)) [
            | none ↦ none
            | some none ↦ some (none, w)
            | some (some o) ↦ publish (initialised type incoming unidirectional o) w
          ]
    ]

-- gb_operation_create
unfoldable pub create : Memory → ℕ → ℕ → ℕ → M (Option ℕ)
create mem type request_size response_size =
    if type == 0
    then pure none
    else create_common mem (bit_and type 0x7f) request_size response_size false false

-- The id of the next request: the cycle counter is an atomic_t, read as unsigned.
abbrev pub next_cycle : ℕ → ℕ
next_cycle c = (c + 1) % 2 ^ 32

unfoldable pub operation_id : ℕ → ℕ
operation_id cycle = cycle % 65535 + 1

-- atomic_inc_return(&connection->op_cycle)
unfoldable pub take_cycle : M ℕ
take_cycle w = some (next_cycle w.op_cycle, record w { op_cycle = next_cycle w.op_cycle })

-- The id into the operation and into the header of its request.
unfoldable pub assign_id : ℕ → ℕ → M (Unit {0})
assign_id p id w = elim (w.heap p) [
  | none ↦ none
  | some o ↦ elim (set_operation_id id o.request.buffer) [
    | none ↦ none
    | some bytes ↦
        some
          (tt, with_op w p (record o { id = id; request = record (o.request) { buffer = bytes } }))
  ]
]

-- The tail that gb_operation_request_send and gb_operation_response_send share: an extra reference,
-- the list of active operations, the host driver, and the way back.
-- err_put_active and err_put
unfoldable pub abandon : ℕ → Errno → M Errno
abandon p ret = do put_active p; put p; pure ret

unfoldable pub deliver : ℕ → Bool → M (Unit {0}) → Errno → M Errno
deliver p is_response fill answer = do
  fill
  ret ← message_send p is_response answer
  if is_success ret then pure success else abandon p ret

unfoldable pub submit : ℕ → Bool → M (Unit {0}) → Errno → M Errno
submit p is_response fill answer = do
  get p
  ret ← get_active p
  if is_success ret then deliver p is_response fill answer else (do put p; pure ret)

-- gb_operation_request_send. `answer` is the host driver's.
unfoldable pub request_send : ℕ → Option Callback → Errno → M Errno
request_send p none answer = pure einval
request_send p (some callback) answer = do
  modify p λ o. record o { callback = some callback }
  cycle ← take_cycle
  assign_id p (operation_id cycle)
  _ ← result_set p einprogress
  submit p false (pure tt) answer

-- Filling in the result of the response header.
unfoldable pub fill_result : ℕ → Errno → M (Unit {0})
fill_result p e w = elim (w.heap p) [
  | none ↦ none
  | some o ↦ elim o.response [
    | none ↦ none
    | some m ↦ elim (set_result (errno_map e) m.buffer) [
      | none ↦ none
      | some bytes ↦
          some (tt, with_op w p (record o { response = some (record m { buffer = bytes }) }))
    ]
  ]
]

-- The first lines of gb_operation_response_send: a response is there, or none is wanted.
unfoldable pub ensure_response : Memory → ℕ → M Bool
ensure_response mem p w = elim (w.heap p) [
  | none ↦ none
  | some o ↦
      if not (is_some o.response) && not o.unidirectional
      then elim (response_alloc w.buffer_size_max mem 0 o) [
        | none ↦ none
        | some none ↦ some (false, w)
        | some (some o') ↦ some (true, with_op w p o')
      ]
      else some (true, w)
]

-- gb_operation_response_send
unfoldable pub response_send : Memory → ℕ → Errno → Errno → M Errno
response_send mem p errno answer = do
  ready ← ensure_response mem p
  if not ready then pure enomem else do
    recorded ← result_set p errno
    if not recorded then pure eio else do
      o ← load p
      if o.unidirectional then pure success else submit p true (fill_result p errno) answer
