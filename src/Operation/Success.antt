-- ===== src/Operation/Success.antt =====
-- What gb_connection_recv_response takes for a success.
use greybus.Base.{ℕ, ◌+◌, ◌≡◌, ◌==◌, ◌&&◌, arith}
use greybus.Errno.{is_success}
use greybus.Operation.Message.{Message, header_size}
use greybus.Operation.Status.{status_map}
use greybus.Operation.Recv.{response_errno}

-- A response counts as a success exactly if its status byte is 0 and its size is that of the response
-- that was allocated.
pub response_errno-success :
    (result size : ℕ) (m : Message)
    → is_success (response_errno result size m)
      ≡ (result == 0 && size == header_size + m.payload_size)
unfolding response_errno status_map
response_errno-success result size m = ground arith
