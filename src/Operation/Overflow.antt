-- ===== src/Operation/Overflow.antt =====
-- A received request that says it is shorter than its own header.
use greybus.Base.{
  ℕ, ◌+◌, ◌-◌, ◌%◌, ◌^◌, ◌≤◌, ◌<◌, ◌≡◌, ◌≢◌, refl, Bool, true, false, none, some, List, arith, ◌==◌,
  length, ltb, replicate, length-replicate, ==_ne,
}
use greybus.Operation.Message.{
  Header, header_size, header_bytes, read_header, memcpy-none, message_init, message_alloc,
}
use greybus.Operation.State.{World, is_enabled}
use greybus.Operation.Send.{Memory, create_common}
use greybus.Operation.Recv.{create_incoming, recv_request, is_response, recv}
use greybus.Operation.Reply.{read_header-lt}

message_alloc-none :
    (b type size n : ℕ)
    → size < 6
    → 6 ≤ b
    → type ≢ 0
    → (n + header_size) % 2 ^ 64 ≡ size
    → message_alloc b type n true true ≡ none
unfolding message_alloc message_init
message_alloc-none b type size n small room ne wraps =
    let typed : (type == 0) ≡ false = ==_ne type 0 ne in
    let fits : ltb b size ≡ false = ground arith in
    let over =
      memcpy-none 6
        (header_bytes
          (record { size = (header_size + n) % 65536; operation_id = 0; type = type; result = 0 }))
        (replicate size 0) (omega (arith, length-replicate {A = ℕ} size 0)) in
    rw (message_alloc, wraps, fits, message_init, typed, over) refl

create_common-none :
    (mem : Memory) (type n : ℕ) (unidirectional : Bool) (w : World)
    → mem.operation ≡ true
    → message_alloc w.buffer_size_max type n mem.request mem.request_buffer ≡ none
    → create_common mem type n 0 true unidirectional w ≡ none
unfolding create_common
create_common-none mem type n unidirectional w a e = ground arith

-- The guard of gb_connection_recv is on the length of the data, not on the size that the header
-- gives. On an enabled connection with memory, a request of a size below 6 and a type other than 0
-- makes it write a header past the end of a smaller buffer.
pub recv_overflows :
    (mem : Memory) (bytes : List ℕ) (w : World) (h : Header)
    → is_enabled w.state ≡ true
    → read_header bytes ≡ some h
    → h.size < 6
    → h.type ≢ 0
    → is_response h.type ≡ false
    → mem.operation ≡ true
    → mem.request ≡ true
    → mem.request_buffer ≡ true
    → 6 ≤ w.buffer_size_max
    → recv mem bytes w ≡ none
unfolding recv recv_request create_incoming
recv_overflows mem bytes w h on e small type request a b c room =
    let n = (h.size + 2 ^ 64 - header_size) % 2 ^ 64 in
    let full = read_header-lt bytes e in
    let enough : ltb (length bytes) header_size ≡ false = ground arith in
    let whole : ltb (length bytes) h.size ≡ false = ground arith in
    let over : message_alloc w.buffer_size_max h.type n mem.request mem.request_buffer ≡ none =
      rw (b, c)
        (message_alloc-none w.buffer_size_max h.type h.size n small room type (omega arith)) in
    let created = create_common-none mem h.type n (h.operation_id == 0) w a over in
    let asked : recv_request mem h.operation_id h.type bytes h.size w ≡ none = ground arith in
    rw (recv, on, enough, e, whole, request) asked
