-- ===== src/Raw.antt =====
-- The raw driver, raw.c: what the module sends is kept in order until a program reads it.
-- A structure's bytes are a list. `none` is a memory fault: a copy past the end of a buffer.
-- The page size is the kernel's.
pub mod Fifo
pub mod Queue
mod Tests
use greybus.Base.{
  ℕ, ◌+◌, ◌-◌, ◌*◌, ◌%◌, ◌^◌, Bool, true, false, Option, none, some, List, [], ◌∷◌, ◌++◌, ◌==◌, ltb,
  not, if◌then◌else◌, length, take,
}
use greybus.Base.Bytes.{byte0, byte1, byte2, byte3, le32}
use greybus.Errno.{Errno, success, einval, enomem, efault, e2big, enospc, is_success}

-- GB_RAW_TYPE_SEND
abbrev pub type_send : ℕ
type_send = 2

-- sizeof(struct gb_raw_send_request)
abbrev pub request_size : ℕ
request_size = 4

abbrev pub max_packet_size : ℕ → ℕ
max_packet_size page_size = page_size * 2

abbrev pub max_data_size : ℕ → ℕ
max_data_size page_size = max_packet_size page_size * 8

-- `struct raw_data`
pub record RawData : Type 0 where
  pub len : ℕ
  pub content : List ℕ

-- The list of a `struct gb_raw`, and the count of its bytes.
pub record Raw : Type 0 where
  pub list : List RawData
  pub list_data : ℕ

-- What a function that counts bytes returns.
pub data Count : Type 0 where
  failed : Errno → Count
  bytes : ℕ → Count

-- `memcpy` of the first bytes of a buffer.
unfoldable pub copy : ℕ → List ℕ → Option (List ℕ)
copy n xs = if ltb (length xs) n then none else some (take n xs)

-- The allocation and the copy of receive_data.
unfoldable pub keep_data : Bool → Raw → ℕ → List ℕ → Option (Errno × Raw)
keep_data has_memory raw len content =
    if not has_memory then some (enomem, raw) else elim (copy len content) [
      | none ↦ none
      | some kept ↦ some (
        success,
        record {
          list = raw.list ++ record { len = len; content = kept } ∷ [];
          list_data = (raw.list_data + len) % 2 ^ 32;
        },
      )
    ]

-- receive_data
unfoldable pub receive_data : ℕ → Bool → Raw → ℕ → List ℕ → Option (Errno × Raw)
receive_data page_size has_memory raw len content =
    if ltb (max_packet_size page_size) len
    then some (einval, raw)
    else if ltb (max_data_size page_size) ((raw.list_data + len) % 2 ^ 32)
    then some (einval, raw)
    else keep_data has_memory raw len content

-- gb_raw_receive on the payload of a request.
unfoldable pub receive : ℕ → Bool → Raw → ℕ → List ℕ → Option (Errno × Raw)
receive page_size has_memory raw type payload =
    if not (type == type_send) then some (einval, raw) else receive_payload payload
  where
    receive_payload : List ℕ → Option (Errno × Raw)
    receive_payload (a ∷ b ∷ c ∷ d ∷ content) =
        let len = le32 a b c d in
        if not (len == (length payload - request_size) % 2 ^ 32)
        then some (einval, raw)
        else if len == 0
        then some (einval, raw)
        else receive_data page_size has_memory raw len content
    receive_payload short = some (einval, raw)

-- The request that gb_raw_send fills in.
abbrev pub send_request : ℕ → List ℕ → List ℕ
send_request len content = byte0 len ∷ byte1 len ∷ byte2 len ∷ byte3 len ∷ content

-- gb_raw_send: what it returns. `user` is what copy_from_user finds, `none` if it fails; `sync` is
-- the answer to gb_operation_sync with a payload.
unfoldable pub send : Bool → (List ℕ → Errno) → ℕ → Option (List ℕ) → Errno
send has_memory sync len user =
    if not has_memory
    then enomem
    else elim user [ none ↦ efault | some content ↦ sync (send_request len content) ]

-- raw_write
unfoldable pub write : ℕ → Bool → (List ℕ → Errno) → ℕ → Option (List ℕ) → Count
write page_size has_memory sync count user =
    if count == 0
    then bytes 0
    else if ltb (max_packet_size page_size) count
    then failed e2big
    else let ret = send has_memory sync count user in
      if is_success ret then bytes count else failed ret

-- raw_read: what it returns, the bytes that it copied to the program, and the state after.
-- `has_copied` is whether copy_to_user succeeds.
unfoldable pub read : Raw → ℕ → Bool → Option (Count × (List ℕ × Raw))
read raw count has_copied = elim raw.list [
  | [] ↦ some (bytes 0, ([], raw))
  | entry ∷ rest ↦
      if ltb count entry.len
      then some (failed enospc, ([], raw))
      else elim (copy entry.len entry.content) [
        | none ↦ none
        | some content ↦
            if not has_copied
            then some (failed efault, ([], raw))
            else some (
              bytes entry.len,
              (content, record { list = rest; list_data = raw.list_data - entry.len }),
            )
      ]
]
