-- ===== src/Operation/Message.antt =====
-- The bytes of a message: `struct gb_operation_msg_hdr` before the payload, in one buffer.
use greybus.Base.{
  Option-cases, inl, inr, replicate, ◌^◌, not, ℕ, zero, suc, ◌+◌, ◌*◌, ◌/◌, ◌%◌, ◌≤◌, ◌<◌, ◌≡◌,
  refl, Bool, Option, none, some, List, [], ◌∷◌, ◌++◌, arith, length, take, drop, ◌==◌,
  if◌then◌else◌, ltb,
}

-- The low and high byte of a u16, as cpu_to_le16 lays it out.
abbrev pub low : ℕ → ℕ
low n = n % 256

abbrev pub high : ℕ → ℕ
high n = n / 256 % 256

-- le16_to_cpu of two bytes.
abbrev pub le16 : ℕ → ℕ → ℕ
le16 a b = a + 256 * b

pub record Header : Type 0 where
  pub size : ℕ
  pub operation_id : ℕ
  pub type : ℕ
  pub result : ℕ

-- sizeof(struct gb_operation_msg_hdr)
abbrev pub header_size : ℕ
header_size = 8

-- The header in front of a buffer; `none` is a read past its end.
unfoldable pub read_header : List ℕ → Option Header
read_header (a ∷ b ∷ c ∷ d ∷ t ∷ r ∷ p ∷ q ∷ rest) =
    some (record { size = le16 a b; operation_id = le16 c d; type = t; result = r })
read_header xs = none

-- The eight bytes of a header, with no padding set.
unfoldable pub header_bytes : Header → List ℕ
header_bytes h =
    low h.size
    ∷ high h.size
    ∷ low h.operation_id
    ∷ high h.operation_id
    ∷ h.type
    ∷ h.result
    ∷ 0
    ∷ 0
    ∷ []

-- The fields are as wide as in the structure.
pub record Fits (h : Header) : Type 0 where
  pub size : h.size < 65536
  pub operation_id : h.operation_id < 65536
  pub type : h.type < 256
  pub result : h.result < 256

-- Reading a header gives back what was written, whatever follows it.
pub read_header-header_bytes :
    (h : Header) (rest : List ℕ) → Fits h → read_header (header_bytes h ++ rest) ≡ some h
unfolding read_header header_bytes
read_header-header_bytes h rest f = ground arith

-- `struct gb_message`. The buffer is the allocation, header and payload.
pub record Message : Type 0 where
  pub buffer : List ℕ
  pub payload_size : ℕ

-- memcpy of the first `n` bytes of `src` to the start of `dst`; `none` when either is shorter.
unfoldable pub memcpy : ℕ → List ℕ → List ℕ → Option (List ℕ)
memcpy zero src dst = some dst
memcpy (suc n) (x ∷ src) (y ∷ dst) = elim (memcpy n src dst) [
  | none ↦ none
  | some out ↦ some (x ∷ out)
]
memcpy (suc n) src dst = none

-- A copy that stays in bounds succeeds, keeps the length of the buffer, and writes these bytes.
pub memcpy_lem :
    (n : ℕ) (src dst : List ℕ)
    → n ≤ length src
    → n ≤ length dst
    → (memcpy n src dst ≡ some (take n src ++ drop n dst))
unfolding memcpy
memcpy_lem zero src dst h k = refl
memcpy_lem (suc n) [] dst h k = elim h [ ]
memcpy_lem (suc n) (x ∷ src) [] h k = elim k [ ]
memcpy_lem (suc n) (x ∷ src) (y ∷ dst) h k = ground (arith, memcpy_lem n src dst)

-- A copy keeps the length of its destination; one past the end of it fails.
pub memcpy-length :
    (n : ℕ) (src dst : List ℕ) {out : List ℕ}
    → memcpy n src dst ≡ some out
    → length out ≡ length dst
unfolding memcpy
memcpy-length zero src dst e = ground arith
memcpy-length (suc n) [] dst e = ground arith
memcpy-length (suc n) (x ∷ src) [] e = ground arith
memcpy-length (suc n) (x ∷ src) (y ∷ dst) e = elim (Option-cases (memcpy n src dst)) [
  | inl f ↦ ground arith
  | inr (r, f) ↦ ground (arith, memcpy-length n src dst f)
]

pub memcpy-none : (n : ℕ) (src dst : List ℕ) → length dst < n → memcpy n src dst ≡ none
unfolding memcpy
memcpy-none zero src dst h = elim h [ ]
memcpy-none (suc n) [] dst h = refl
memcpy-none (suc n) (x ∷ src) [] h = refl
memcpy-none (suc n) (x ∷ src) (y ∷ dst) h = ground (arith, memcpy-none n src dst)

abbrev pub message_type_response : ℕ
message_type_response = 0x80

-- header->operation_id = cpu_to_le16(id); `none` past the end of the buffer.
unfoldable pub set_operation_id : ℕ → List ℕ → Option (List ℕ)
set_operation_id id (a ∷ b ∷ c ∷ d ∷ rest) = some (a ∷ b ∷ low id ∷ high id ∷ rest)
set_operation_id id xs = none

-- The operation id of one header, copied as it stands into another.
unfoldable pub copy_operation_id : List ℕ → List ℕ → Option (List ℕ)
copy_operation_id (a ∷ b ∷ c ∷ d ∷ rest) (e ∷ f ∷ g ∷ h ∷ rest') = some (e ∷ f ∷ c ∷ d ∷ rest')
copy_operation_id xs ys = none

-- header->result = result
unfoldable pub set_result : ℕ → List ℕ → Option (List ℕ)
set_result r (a ∷ b ∷ c ∷ d ∷ t ∷ x ∷ rest) = some (a ∷ b ∷ c ∷ d ∷ t ∷ r ∷ rest)
set_result r xs = none

-- gb_operation_message_init on a buffer: the six bytes of the fields, unless the type is 0.
unfoldable pub message_init : List ℕ → ℕ → ℕ → Option Message
unfolding memcpy header_bytes
message_init buffer payload_size type =
    if type == 0
    then some (record { buffer = buffer; payload_size = payload_size })
    else elim (memcpy 6
        (header_bytes (record {
          size = (header_size + payload_size) % 65536;
          operation_id = 0;
          type = type;
          result = 0;
        }))
        buffer) [
          | none ↦ none
          | some out ↦ some (record { buffer = out; payload_size = payload_size })
        ]

-- gb_operation_message_alloc. The answers are those of the two allocations; the outer `none` is a
-- write out of bounds, the inner one a null pointer. `size_t` sums wrap.
unfoldable pub message_alloc : ℕ → ℕ → ℕ → Bool → Bool → Option (Option Message)
message_alloc buffer_size_max type payload_size has_message has_buffer =
    let message_size = (payload_size + header_size) % 2 ^ 64 in
    if ltb buffer_size_max message_size
    then some none
    else if not has_message
    then some none
    else if not has_buffer
    then some none
    else elim (message_init (replicate message_size 0) payload_size type) [
      | none ↦ none
      | some m ↦ some (some m)
    ]
