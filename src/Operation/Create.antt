-- ===== src/Operation/Create.antt =====
-- Allocation: the buffers of a new operation hold its messages.
use Prim.Native.Nat.{bit_or}
use greybus.Base.{
  ℕ, ◌+◌, ◌%◌, ◌^◌, ◌≤◌, ◌<◌, ◌≡◌, refl, inl, inr, Bool, true, false, Option, none, some, List, [],
  ◌∷◌, arith, ◌==◌, length, replicate, length-replicate, Bool-cases, ◌++◌, take, drop, is_some, ◌∙◌,
}
use greybus.Errno.{ebadr}
use greybus.Operation.Message.{
  Message, header_size, header_bytes, memcpy_lem, memcpy-length, message_init, message_alloc,
  copy_operation_id, message_type_response,
}
use greybus.Operation.State.{Operation, World}
use greybus.Operation.Send.{Memory, response_alloc, create_common, zeroed, initialised, publish}
use greybus.Operation.Invariant.{IsSized, IsSizedOption, Inv, Inv-publish}
use greybus.Operation.Effects.{Returns, Now}

-- A null pointer, or a message whose buffer holds its payload of this size.
abbrev pub Allocated : ℕ → Option (Option Message) → Type 0
Allocated n none = ⊥
Allocated n (some none) = Unit {0}
Allocated n (some (some m)) = IsSized m × (m.payload_size ≡ n)

message_init-Allocated :
    (buffer : List ℕ) (n type : ℕ)
    → length buffer ≡ n + header_size
    → (m : Message) × (message_init buffer n type ≡ some m) × IsSized m × (m.payload_size ≡ n)
unfolding message_init header_bytes
message_init-Allocated buffer n type h = elim (Bool-cases (type == 0)) [
  | inl z ↦ (record { buffer = buffer; payload_size = n }, ground arith, omega arith, refl)
  | inr t ↦
      let head =
        header_bytes (record {
          size = (header_size + n) % 65536;
          operation_id = 0;
          type = type;
          result = 0;
        }) in
      let copied = memcpy_lem 6 head buffer (omega arith) (omega arith) in
      (
        record { buffer = take 6 head ++ drop 6 buffer; payload_size = n },
        rw (t, message_init, copied) refl,
        omega (arith, memcpy-length 6 head buffer copied),
        refl,
      )
]

pub message_alloc-Allocated :
    (b type n : ℕ) (x y : Bool)
    → n + header_size < 2 ^ 64
    → Allocated n (message_alloc b type n x y)
unfolding message_alloc
message_alloc-Allocated b type n x y h =
    let whole : (n + header_size) % 2 ^ 64 ≡ n + header_size = omega arith in
    let (m, e, sized, size) =
      message_init-Allocated (replicate (n + header_size) 0) n type
        (length-replicate (n + header_size) 0) in
    rw (message_alloc, whole) (ground arith)

copy_operation_id_lem :
    (xs ys : List ℕ)
    → header_size ≤ length xs
    → header_size ≤ length ys
    → (out : List ℕ) × (copy_operation_id xs ys ≡ some out) × (length out ≡ length ys)
unfolding copy_operation_id
copy_operation_id_lem [] ys h k = absurd (omega arith)
copy_operation_id_lem (a ∷ []) ys h k = absurd (omega arith)
copy_operation_id_lem (a ∷ b ∷ []) ys h k = absurd (omega arith)
copy_operation_id_lem (a ∷ b ∷ c ∷ []) ys h k = absurd (omega arith)
copy_operation_id_lem (a ∷ b ∷ c ∷ d ∷ xs) [] h k = absurd (omega arith)
copy_operation_id_lem (a ∷ b ∷ c ∷ d ∷ xs) (e ∷ []) h k = absurd (omega arith)
copy_operation_id_lem (a ∷ b ∷ c ∷ d ∷ xs) (e ∷ f ∷ []) h k = absurd (omega arith)
copy_operation_id_lem (a ∷ b ∷ c ∷ d ∷ xs) (e ∷ f ∷ g ∷ []) h k = absurd (omega arith)
copy_operation_id_lem (a ∷ b ∷ c ∷ d ∷ xs) (e ∷ f ∷ g ∷ i ∷ ys) h k = (_, refl, refl)

-- A null pointer for the response, or the operation with a response of this size.
abbrev pub Responding : ℕ → Operation → Option (Option Operation) → Type 0
Responding n o none = ⊥
Responding n o (some none) = Unit {0}
Responding n o (some (some o')) =
    (m : Message) × (o' ≡ record o { response = some m }) × IsSized m × (m.payload_size ≡ n)

pub response_alloc-Responding :
    (b : ℕ) (mem : Memory) (n : ℕ) (o : Operation)
    → IsSized o.request
    → n + header_size < 2 ^ 64
    → Responding n o (response_alloc b mem n o)
unfolding response_alloc
response_alloc-Responding b mem n o s h =
    go (message_alloc b (bit_or o.type message_type_response) n mem.response mem.response_buffer)
      refl
      (message_alloc-Allocated b (bit_or o.type message_type_response) n mem.response
        mem.response_buffer h)
  where
    go :
        (r : Option (Option Message))
        → message_alloc b (bit_or o.type message_type_response) n mem.response mem.response_buffer
          ≡ r
        → Allocated n r
        → Responding n o (response_alloc b mem n o)
    go none e k = elim k [ ]
    go (some none) e k = rw (e, response_alloc) tt
    go (some (some m)) e k =
        let sized = k.0 in
        let (out, c, len) =
          copy_operation_id_lem o.request.buffer m.buffer (omega arith) (omega arith) in
        rw (e, response_alloc, c) (record m { buffer = out }, refl, len ∙ sized, k.1)

-- No operation, and nothing changed; or a new one, with one reference and no result yet.
abbrev pub Created : ℕ → ℕ → Bool → World → Option ℕ → World → Type 0
Created type size incoming w none w' = w' ≡ w
Created type size incoming w (some p) w' =
    (o : Operation) × Now p o w w'
    × (o.kref ≡ 1)
    × (o.active ≡ 0)
    × (o.errno ≡ ebadr)
    × (o.incoming ≡ incoming)
    × (o.type ≡ type)
    × (o.request.payload_size ≡ size)

publish-Created :
    (w : World) (type size : ℕ) (incoming unidirectional : Bool) (o : Operation)
    → Inv w
    → IsSized o.request
    → IsSizedOption o.response
    → (incoming ≡ false → is_some o.response ≡ true)
    → o.request.payload_size ≡ size
    → o.active ≡ 0
    → Returns
        (Created type size incoming w)
        (publish (initialised type incoming unidirectional o) w)
publish-Created w type size incoming unidirectional o v s t out e idle = (
  initialised type incoming unidirectional o,
  record {
    inv = Inv-publish w (initialised type incoming unidirectional o) v λ l p h. record {
      listed = ground arith;
      within = omega arith;
      held = omega arith;
      request_sized = s;
      response_sized = t;
      outgoing = out;
    };
    at = ground arith;
    state = refl;
    elsewhere = λ q n. ground arith;
  },
  refl,
  idle,
  refl,
  refl,
  refl,
  e,
)

module _ (mem : Memory) (type n k : ℕ) (unidirectional : Bool) (w : World) (v : Inv w)
    (h : n + header_size < 2 ^ 64) (h' : k + header_size < 2 ^ 64) where
  alloc : Option (Option Message)
  alloc = message_alloc w.buffer_size_max type n mem.request mem.request_buffer

  incoming-Created :
      (r : Option (Option Message))
      → alloc ≡ r
      → Allocated n r
      → mem.operation ≡ true
      → Returns (Created type n true w) (create_common mem type n k true unidirectional w)
  unfolding create_common alloc
  incoming-Created none e a y = elim a [ ]
  incoming-Created (some none) e a y = rw (create_common, y, e) refl
  incoming-Created (some (some m)) e (s, z) y =
      rw (create_common, y, e)
        (publish-Created w type n true unidirectional (zeroed m) v s tt (λ x. ground arith) z refl)

  response-Created :
      (m : Message) (r : Option (Option Operation))
      → alloc ≡ some (some m)
      → mem.operation ≡ true
      → IsSized m
      → m.payload_size ≡ n
      → response_alloc w.buffer_size_max mem k (zeroed m) ≡ r
      → Responding k (zeroed m) r
      → Returns (Created type n false w) (create_common mem type n k false unidirectional w)
  unfolding create_common alloc
  response-Created m none e y s z a q = elim q [ ]
  response-Created m (some none) e y s z a q = rw (create_common, y, e, a) refl
  response-Created m (some (some o)) e y s z a (m', eq, s', z') =
      rw (create_common, y, e, a, eq)
        (publish-Created w type n false unidirectional (record (zeroed m) { response = some m' }) v
          s s' (λ x. refl) z refl)

  outgoing-Created :
      (r : Option (Option Message))
      → alloc ≡ r
      → Allocated n r
      → mem.operation ≡ true
      → Returns (Created type n false w) (create_common mem type n k false unidirectional w)
  unfolding create_common alloc
  outgoing-Created none e a y = elim a [ ]
  outgoing-Created (some none) e a y = rw (create_common, y, e) refl
  outgoing-Created (some (some m)) e (s, z) y =
      response-Created m (response_alloc w.buffer_size_max mem k (zeroed m)) e y s z refl
        (response_alloc-Responding w.buffer_size_max mem k (zeroed m) s h')

  allocated : Allocated n alloc
  unfolding alloc
  allocated = message_alloc-Allocated w.buffer_size_max type n mem.request mem.request_buffer h

  -- Creating an operation never faults while the size of each message fits a size_t: it gives a null
  -- pointer and changes nothing, or a new operation with one reference and no result.
  pub create_common-Created :
      (incoming : Bool)
      → Returns (Created type n incoming w) (create_common mem type n k incoming unidirectional w)
  unfolding create_common
  create_common-Created incoming = elim (Bool-cases mem.operation) [
    | inr e ↦ rw (e, create_common) refl
    | inl e ↦ pick incoming e
  ]
    where
      pick :
          (incoming : Bool)
          → mem.operation ≡ true
          → Returns
              (Created type n incoming w)
              (create_common mem type n k incoming unidirectional w)
      pick true e = incoming-Created alloc refl allocated e
      pick false e = outgoing-Created alloc refl allocated e
