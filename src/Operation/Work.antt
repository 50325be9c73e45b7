-- ===== src/Operation/Work.antt =====
-- After sending: greybus_message_sent, gb_operation_work with the handlers of requests, and the
-- cancellations.
use greybus.Base.{ℕ, ◌+◌, ◌-◌, Bool, true, false, Option, none, some, if◌then◌else◌, not}
use greybus.Errno.{Errno, eprotonosupport, is_success}
use greybus.Operation.State.{
  Callback, sync, user, M, pure, ◌>>=◌, ◌>>◌, load, modify, put_active, is_active, put, result_set,
  message_cancel, queue_completion,
}
use greybus.Operation.Send.{Memory, response_send}

-- greybus_message_sent: the message was the response or the request of the operation.
unfoldable pub message_sent : ℕ → Bool → Errno → M (Unit {0})
message_sent p is_response status =
    if is_response
    then (do put_active p; put p)
    else if is_success status
    then pure tt
    else do recorded ← result_set p status; if recorded then queue_completion p else pure tt

-- What handles a request: no protocol, one without `request_recv`, or its function.
pub data Handler : Type 0 where
  no_protocol no_request_recv : Handler
  request_recv : (ℕ → M Errno) → Handler

abbrev pub handle : Memory → Errno → ℕ → (ℕ → M Errno) → M (Unit {0})
handle mem answer p recv = do status ← recv p; _ ← response_send mem p status answer; pure tt

-- gb_operation_request_handle
unfoldable pub request_handle : Handler → Memory → Errno → ℕ → M (Unit {0})
request_handle no_protocol mem answer p = pure tt
request_handle no_request_recv mem answer p = handle mem answer p (λ _. pure eprotonosupport)
request_handle (request_recv recv) mem answer p = handle mem answer p recv

-- `operation->callback(operation)`; a requester's own function is an argument.
unfoldable pub run_callback : (ℕ → M (Unit {0})) → ℕ → Option Callback → M (Unit {0})
run_callback user_callback p none = λ w. none
run_callback user_callback p (some sync) = modify p λ o. record o { completed = true }
run_callback user_callback p (some user) = user_callback p

-- gb_operation_work
unfoldable pub work : Handler → (ℕ → M (Unit {0})) → Memory → Errno → ℕ → M (Unit {0})
work handler user_callback mem answer p = do
  o ← load p
  if o.incoming
      then request_handle handler mem answer p
      else run_callback user_callback p o.callback
  put_active p
  put p

-- gb_operation_cancel up to its wait, and what follows the wait: `false` while it lasts.
unfoldable pub cancel : ℕ → Errno → M (Unit {0})
cancel p errno = do
  o ← load p
  if o.incoming then pure tt else do
    recorded ← result_set p errno
    if recorded then (do message_cancel p false; queue_completion p) else pure tt
    modify p λ o. record o { waiters = o.waiters + 1 }

unfoldable pub wait_inactive : ℕ → M Bool
wait_inactive p = do
  active ← is_active p
  if active then pure false else (do modify p λ o. record o { waiters = o.waiters - 1 }; pure true)

-- gb_operation_cancel_incoming after flush_work, up to its wait.
unfoldable pub cancel_incoming : ℕ → Errno → M (Unit {0})
cancel_incoming p errno = do
  o ← load p
  if not o.incoming then pure tt else do
    if o.unidirectional
        then pure tt
        else (do recorded ← result_set p errno; if recorded then pure tt else message_cancel p true)
    modify p λ o. record o { waiters = o.waiters + 1 }
