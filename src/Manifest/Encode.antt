-- ===== src/Manifest/Encode.antt =====
-- Writing descriptors, and what the parser makes of them.
use greybus.Base.{
  ℕ, zero, suc, ◌+◌, ◌*◌, ◌/◌, ◌%◌, ◌≤◌, ◌<◌, ◌≡◌, refl, true, false, some, List, [], ◌∷◌, ◌++◌,
  arith, length, drop, length-append, drop-append, ltb, All, ap, subst, sym, ◌∙◌,
}
use greybus.Manifest.{
  Descriptor, DescriptorType, interface, string, bundle, cport, accepted, header_size,
  expected_size, descriptor_type, identify_descriptor, check_size, scan,
}

-- A descriptor to be written: its type, and what follows its header.
pub record Entry : Type 0 where
  pub type : DescriptorType
  pub body : List ℕ

abbrev pub type_code : DescriptorType → ℕ
type_code interface = 1
type_code string = 2
type_code bundle = 3
type_code cport = 4

abbrev pub entry_size : Entry → ℕ
entry_size e = header_size + length e.body

unfoldable pub encode : List Entry → List ℕ
encode [] = []
encode (e ∷ es) =
    (entry_size e % 256 ∷ entry_size e / 256 ∷ type_code e.type ∷ 0 ∷ e.body) ++ encode es

-- The size fits its field, and the body is as long as the type wants.
abbrev pub IsWellSized : Entry → Type 0
IsWellSized e =
    (entry_size e < 65536)
    × ((rest : List ℕ)
        → (n : ℕ) × (expected_size e.type (e.body ++ rest) ≡ some n) × (n ≤ entry_size e))

-- The descriptors that the parser should find.
unfoldable pub describe : ℕ → List Entry → List Descriptor
unfolding encode
describe address [] = []
describe address (e ∷ es) =
    record { address = address; size = entry_size e; bytes = e.body ++ encode es; type = e.type }
    ∷ describe (address + 1) es

descriptor_type-type_code : (t : DescriptorType) → descriptor_type (type_code t) ≡ some t
unfolding descriptor_type
descriptor_type-type_code t = ground arith

check_size-valid :
    (address size n : ℕ) (t : DescriptorType) (body : List ℕ)
    → expected_size t body ≡ some n
    → n ≤ size
    → check_size address true size t body
      ≡ accepted (record { address = address; size = size; bytes = body; type = t })
unfolding check_size
check_size-valid address size n t body x le =
    let enough : ltb size n ≡ false = ground arith in rw (check_size, x, enough) refl

identify_descriptor-valid :
    (address a b t size n : ℕ) (pad : ℕ) (type : DescriptorType) (body : List ℕ)
    → a + 256 * b ≡ size
    → descriptor_type t ≡ some type
    → size ≤ 4 + length body
    → expected_size type body ≡ some n
    → n ≤ size
    → identify_descriptor address true (a ∷ b ∷ t ∷ pad ∷ body)
      ≡ accepted (record { address = address; size = size; bytes = body; type = type })
unfolding identify_descriptor
identify_descriptor-valid address a b t size n pad type body whole k le x h =
    let fits : ltb (4 + length body) size ≡ false = ground arith in
    rw (identify_descriptor, whole, fits, k, whole) (check_size-valid address size n type body x h)

drop_header :
    (a b t pad : ℕ) (xs ys : List ℕ)
    → drop (header_size + length xs) (a ∷ b ∷ t ∷ pad ∷ xs ++ ys) ≡ ys
drop_header a b t pad xs ys =
    let four : 4 + length xs ≡ suc (suc (suc (suc (length xs)))) = omega arith in
    ap (λ n. drop n (a ∷ b ∷ t ∷ pad ∷ xs ++ ys)) four ∙ drop-append xs ys

scan-accepted :
    (fuel address b : ℕ) (bytes : List ℕ) (d : Descriptor) (ds : List Descriptor)
    → identify_descriptor address true (b ∷ bytes) ≡ accepted d
    → scan fuel (λ _. true) (address + 1) (drop d.size (b ∷ bytes)) ≡ some (accepted ds)
    → scan (suc fuel) (λ _. true) address (b ∷ bytes) ≡ some (accepted (d ∷ ds))
unfolding scan
scan-accepted fuel address b bytes d ds i k = rw (scan, i, k) refl

-- Written descriptors of valid sizes are read back, with memory and fuel for each byte: the pass finds each of them, in order, with its
-- type, its size and its body.
pub scan-encode :
    (fuel address : ℕ) (es : List Entry)
    → length (encode es) ≤ fuel
    → All IsWellSized es
    → scan fuel (λ _. true) address (encode es) ≡ some (accepted (describe address es))
unfolding scan encode describe
scan-encode zero address [] h v = refl
scan-encode (suc fuel) address [] h v = refl
scan-encode zero address (e ∷ es) h v = absurd (omega arith)
scan-encode (suc fuel) address (e ∷ es) h v =
    let (n, x, le) = v.0.1 (encode es) in
    let sizes = length-append e.body (encode es) in
    let found =
      identify_descriptor-valid address (entry_size e % 256) (entry_size e / 256) (type_code e.type)
        (entry_size e) n 0 e.type (e.body ++ encode es) (omega arith)
        (descriptor_type-type_code e.type) (omega arith) x le in
    let rest = scan-encode fuel (address + 1) es (omega (arith, sizes)) v.1 in
    let gone =
      drop_header (entry_size e % 256) (entry_size e / 256) (type_code e.type) 0 e.body
        (encode es) in
    scan-accepted fuel address (entry_size e % 256)
      (entry_size e / 256 ∷ type_code e.type ∷ 0 ∷ e.body ++ encode es) _
      (describe (address + 1) es) found
      (subst
        (λ bytes.
          scan fuel (λ _. true) (address + 1) bytes ≡ some (accepted (describe (address + 1) es)))
        (sym gone) rest)
