-- ===== src/Operation.antt =====
-- Operations, operation.c and operation.h: requests and responses over one connection.
-- `Message` has the bytes of a message, `Status` the codes, `State` the memory and the reference
-- counts, `Send`, `Work` and `Recv` the handlers; the other modules prove.
pub mod Status
pub mod Message
pub mod State
pub mod Result
pub mod Send
pub mod Work
pub mod Recv
pub mod Invariant
pub mod Effects
pub mod Submit
pub mod Request
pub mod Wrap
pub mod Create
pub mod Receive
pub mod Complete
pub mod Reply
pub mod Overflow
pub mod Finish
pub mod Withdraw
pub mod Respond
pub mod Success
mod Tests
