-- ===== src/Manifest.antt =====
-- The manifest of an interface, manifest.c and greybus_manifest.h: the pass that identifies the
-- descriptors in the buffer, the search for the one interface descriptor, and the strings.
-- A `void *` into the buffer is the list of the bytes from there to its end.
pub mod Scan
pub mod Encode
pub mod Parse
mod Tests
use greybus.Base.{
  ℕ, zero, suc, ◌+◌, ◌-◌, ◌*◌, ◌/◌, ◌%◌, Bool, true, false, Option, none, some, List, [], ◌∷◌, ◌++◌,
  ◌==◌, ltb, not, length, drop, take, if◌then◌else◌,
}

-- `enum greybus_descriptor_type`, as far as the parser knows it.
pub data DescriptorType : Type 0 where
  interface string bundle cport : DescriptorType

unfoldable pub descriptor_type : ℕ → Option DescriptorType
descriptor_type t =
    if t == 1
    then some interface
    else if t == 2
    then some string
    else if t == 3
    then some bundle
    else if t == 4
    then some cport
    else none

-- `struct manifest_desc`; `address` tells the nodes of the list apart.
pub record Descriptor : Type 0 where
  pub address : ℕ
  pub size : ℕ
  pub bytes : List ℕ
  pub type : DescriptorType

-- `fault` is a read past the end of the buffer.
pub data Outcome (A : Type 0) : Type 0 where
  fault rejected : Outcome A
  accepted : A → Outcome A

-- sizeof(struct greybus_descriptor_header), and of the greybus_manifest_header
abbrev pub header_size : ℕ
header_size = 4

-- ALIGN(n, 4)
abbrev pub align : ℕ → ℕ
align n = (n + 3) / 4 * 4

-- The least size of a descriptor of a type; that of a string is read from its body.
unfoldable pub expected_size : DescriptorType → List ℕ → Option ℕ
expected_size string [] = none
expected_size string (l ∷ body) = some (align (header_size + 2 + l))
expected_size interface body = some (header_size + 4)
expected_size bundle body = some (header_size + 4)
expected_size cport body = some (header_size + 4)

-- The tests of identify_descriptor after the type is known.
unfoldable pub check_size : ℕ → Bool → ℕ → DescriptorType → List ℕ → Outcome Descriptor
unfolding expected_size
check_size address memory size t body = elim (expected_size t body) [
  | none ↦ fault
  | some expected ↦
      if ltb size expected
      then rejected
      else if memory
      then accepted (record { address = address; size = size; bytes = body; type = t })
      else rejected
]

-- identify_descriptor, on the bytes that remain. `memory` answers the allocation.
unfoldable pub identify_descriptor : ℕ → Bool → List ℕ → Outcome Descriptor
unfolding descriptor_type
identify_descriptor address memory (a ∷ b ∷ t ∷ pad ∷ body) =
    let size = a + 256 * b in
    if ltb (4 + length body) size then rejected else elim (descriptor_type t) [
      | none ↦ rejected
      | some type ↦ check_size address memory size type body
    ]
identify_descriptor address memory bytes = rejected

-- A descriptor before those of the rest.
abbrev pub prepend : Descriptor → Outcome (List Descriptor) → Outcome (List Descriptor)
prepend d fault = fault
prepend d rejected = rejected
prepend d (accepted ds) = accepted (d ∷ ds)

-- `while (size)`, on fuel; `none` is that the fuel ran out. The nodes are numbered in order.
unfoldable pub scan : ℕ → (ℕ → Bool) → ℕ → List ℕ → Option (Outcome (List Descriptor))
scan fuel memory address [] = some (accepted [])
scan zero memory address (b ∷ bytes) = none
scan (suc fuel) memory address (b ∷ bytes) =
    elim (identify_descriptor address (memory address) (b ∷ bytes)) [
      | fault ↦ some fault
      | rejected ↦ some rejected
      | accepted d ↦ elim (scan fuel memory (address + 1) (drop d.size (b ∷ bytes))) [
        | none ↦ none
        | some rest ↦ some (prepend d rest)
      ]
    ]

-- The interface descriptors of a list.
unfoldable pub interfaces : List Descriptor → List Descriptor
interfaces [] = []
interfaces (d ∷ ds) = elim d.type [ interface ↦ d ∷ interfaces ds | _ ↦ interfaces ds ]

-- `list_for_each_entry … if (!found++)`, and the test that follows: the one interface descriptor.
unfoldable pub single_interface : List Descriptor → Option Descriptor
unfolding interfaces
single_interface ds = elim (interfaces ds) [
  | [] ↦ none
  | d ∷ rest ↦ elim rest [ [] ↦ some d | e ∷ more ↦ none ]
]

-- gb_manifest_parse up to the interface descriptor: its header, the pass, and the descriptors. The
-- list holds the `size` bytes at `data`.
unfoldable pub parse : (ℕ → Bool) → List ℕ → Outcome (Descriptor × List Descriptor)
parse memory (a ∷ b ∷ major ∷ minor ∷ body) =
    if not (a + 256 * b == 4 + length body)
    then rejected
    else if ltb 0 major
    then rejected
    else elim (scan (length body) memory 0 body) [
      | none ↦ fault
      | some fault ↦ fault
      | some rejected ↦ rejected
      | some (accepted ds) ↦ elim (single_interface ds) [
        | none ↦ rejected
        | some d ↦ accepted (d, ds)
      ]
    ]
parse memory bytes = rejected

-- gb_string_get: a null pointer for id 0, else a copy of the string and the list without its
-- descriptor; `rejected` is -ENOENT or -ENOMEM. One byte more than the string is read.
abbrev pub read_string : ℕ → List ℕ → Outcome (List ℕ)
read_string n bytes = if ltb (length bytes) (n + 1) then fault else accepted (take n bytes)

abbrev pub keep :
    Descriptor
    → Outcome (Option (List ℕ) × List Descriptor)
    → Outcome (Option (List ℕ) × List Descriptor)
keep d fault = fault
keep d rejected = rejected
keep d (accepted (s, es)) = accepted (s, d ∷ es)

abbrev pub with_string :
    Outcome (List ℕ) → List Descriptor → Outcome (Option (List ℕ) × List Descriptor)
with_string fault ds = fault
with_string rejected ds = rejected
with_string (accepted copy) ds = accepted (some copy, ds)

unfoldable pub string_get : Bool → ℕ → List Descriptor → Outcome (Option (List ℕ) × List Descriptor)
string_get memory id [] = if id == 0 then accepted (none, []) else rejected
string_get memory id (d ∷ ds) =
    let rest = string_get memory id ds in
    if id == 0 then accepted (none, d ∷ ds) else elim d.type [
      | string ↦ elim d.bytes [
        | [] ↦ fault
        | l ∷ body ↦ elim body [
          | [] ↦ fault
          | i ∷ text ↦
              if i == id
              then (if memory then with_string (read_string l text) ds else rejected)
              else keep d rest
        ]
      ]
      | _ ↦ keep d rest
    ]
