-- ===== src/Operation/State.antt =====
-- One connection and the operations in memory, with the helpers of operation.c that count.
-- A number stands for a `struct gb_operation *`. `none` is a memory fault: a use of an operation that
-- was freed, a copy out of bounds, or a count that would go below zero.
use greybus.Base.{
  ℕ, ◌+◌, ◌-◌, Bool, true, false, Option, none, some, List, [], ◌∷◌, ◌++◌, ◌==◌, if◌then◌else◌,
  erase, not, ◌&&◌,
}
pub use greybus.Base.Monad.{Call, pure, ◌>>=◌, ◌>>◌}
use greybus.Errno.{Errno, success, einprogress, eilseq, enotconn, is_einprogress, is_ebadr}
use greybus.Operation.Message.{Message}

-- `enum gb_connection_state`
pub data ConnectionState : Type 0 where
  invalid disabled enabled error destroying : ConnectionState

abbrev pub is_enabled : ConnectionState → Bool
is_enabled enabled = true
is_enabled s = false

-- gb_operation_sync_callback, or a function of the requester.
pub data Callback : Type 0 where
  sync user : Callback

-- `struct gb_operation`; `incoming` and `unidirectional` are the two bits of `flags`, and
-- `completed` is the state of `completion`.
pub record Operation : Type 0 where
  pub request : Message
  pub response : Option Message
  pub incoming : Bool
  pub unidirectional : Bool
  pub type : ℕ
  pub id : ℕ
  pub errno : Errno
  pub callback : Option Callback
  pub completed : Bool
  pub kref : ℕ
  pub waiters : ℕ
  pub active : ℕ

-- The connection's fields, the operations in memory, the two work queues, and what was handed to the
-- host driver to send or to cancel: an operation, and whether it is its response.
pub record World : Type 0 where
  pub state : ConnectionState
  pub operations : List ℕ
  pub op_cycle : ℕ
  pub heap : ℕ → Option Operation
  pub next : ℕ
  pub wq : List ℕ
  pub completion_wq : List ℕ
  pub sent : List (ℕ × Bool)
  pub cancelled : List (ℕ × Bool)
  pub buffer_size_max : ℕ

abbrev pub M : Type 0 → Type 0
M A = Call World A

abbrev pub update : (ℕ → Option Operation) → ℕ → Option Operation → ℕ → Option Operation
update f p v q = if p == q then v else f q

abbrev pub with_op : World → ℕ → Operation → World
with_op w p o = record w { heap = update w.heap p (some o) }

unfoldable pub load : ℕ → M Operation
load p w = elim (w.heap p) [ none ↦ none | some o ↦ some (o, w) ]

unfoldable pub modify : ℕ → (Operation → Operation) → M (Unit {0})
modify p f w = elim (w.heap p) [ none ↦ none | some o ↦ some (tt, with_op w p (f o)) ]

-- gb_operation_get_active
unfoldable pub get_active : ℕ → M Errno
get_active p w = elim (w.heap p) [
  | none ↦ none
  | some o ↦
      if is_enabled w.state
      then some (
        success,
        record w {
          heap = update w.heap p (some (record o { active = o.active + 1 }));
          operations = if o.active == 0 then w.operations ++ p ∷ [] else w.operations;
        },
      )
      else some (enotconn, w)
]

-- gb_operation_put_active. The wake-up of waiters is the condition of `wait_inactive`.
unfoldable pub put_active : ℕ → M (Unit {0})
put_active p w = elim (w.heap p) [
  | none ↦ none
  | some o ↦
      if o.active == 0
      then none
      else some (
        tt,
        record w {
          heap = update w.heap p (some (record o { active = o.active - 1 }));
          operations = if o.active == 1 then erase p w.operations else w.operations;
        },
      )
]

-- gb_operation_is_active
unfoldable pub is_active : ℕ → M Bool
unfolding load
is_active p = do o ← load p; pure (not (o.active == 0))

-- gb_operation_get
unfoldable pub get : ℕ → M (Unit {0})
unfolding modify
get p = modify p λ o. record o { kref = o.kref + 1 }

-- gb_operation_put, with _gb_operation_destroy when the last reference goes.
unfoldable pub put : ℕ → M (Unit {0})
put p w = elim (w.heap p) [
  | none ↦ none
  | some o ↦
      if o.kref == 0
      then none
      else if o.kref == 1
      then some (tt, record w { heap = update w.heap p none })
      else some (tt, with_op w p (record o { kref = o.kref - 1 }))
]

-- The new `errno` of an operation, and whether the caller's result was recorded.
unfoldable pub next_errno : Errno → Errno → Errno × Bool
next_errno prev einprogress = if is_ebadr prev then (einprogress, true) else (eilseq, true)
next_errno prev result =
    if is_einprogress prev
    then (if is_ebadr result then eilseq else result, true)
    else (prev, false)

-- gb_operation_result_set
unfoldable pub result_set : ℕ → Errno → M Bool
unfolding next_errno
result_set p result w = elim (w.heap p) [
  | none ↦ none
  | some o ↦
      let (e, recorded) = next_errno o.errno result in
      some (recorded, with_op w p (record o { errno = e }))
]

-- Handing a message to `hd->driver->message_send`, which answers `answer`.
unfoldable pub message_send : ℕ → Bool → Errno → M Errno
message_send p is_response answer w =
    some (answer, record w { sent = w.sent ++ (p, is_response) ∷ [] })

-- gb_message_cancel
unfoldable pub message_cancel : ℕ → Bool → M (Unit {0})
message_cancel p is_response w =
    some (tt, record w { cancelled = w.cancelled ++ (p, is_response) ∷ [] })

-- queue_work on the completion workqueue and on the connection's own.
unfoldable pub queue_completion : ℕ → M (Unit {0})
queue_completion p w = some (tt, record w { completion_wq = w.completion_wq ++ p ∷ [] })

unfoldable pub queue_request : ℕ → M (Unit {0})
queue_request p w = some (tt, record w { wq = w.wq ++ p ∷ [] })

-- gb_operation_find_outgoing, which takes a reference on what it finds.
unfoldable pub search : List ℕ → (ℕ → Option Operation) → ℕ → Option (Option ℕ)
search [] heap id = some none
search (p ∷ ps) heap id = elim (heap p) [
  | none ↦ none
  | some o ↦ if o.id == id && not o.incoming then some (some p) else search ps heap id
]

abbrev pub get_found : Option ℕ → M (Option ℕ)
get_found none = pure none
get_found (some p) = do get p; pure (some p)

unfoldable pub find_outgoing : ℕ → M (Option ℕ)
unfolding search get
find_outgoing id w = elim (search w.operations w.heap id) [
  | none ↦ none
  | some found ↦ get_found found w
]
