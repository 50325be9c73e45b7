-- ===== src/Manifest/Scan.antt =====
-- The pass over the buffer ends, and what it accepts is the whole of the buffer.
use greybus.Base.{
  ℕ, zero, suc, ◌+◌, ◌*◌, ◌≤◌, ◌≡◌, refl, inl, inr, Bool, Option, none, some, List, [], ◌∷◌, arith,
  length, drop, length-drop, Option-cases, subst, ap,
}
use greybus.Manifest.{
  Descriptor, DescriptorType, interface, string, bundle, cport, Outcome, fault, rejected, accepted,
  header_size, expected_size, descriptor_type, identify_descriptor, check_size, scan, prepend,
}

-- What identify_descriptor accepts: it starts where the buffer does, is a header at least and no
-- longer than the buffer, and is as long as its type wants.
pub record Identified (address : ℕ) (bytes : List ℕ) (d : Descriptor) : Type 0 where
  pub address_is : d.address ≡ address
  pub least : header_size ≤ d.size
  pub most : d.size ≤ length bytes
  pub body : d.bytes ≡ drop header_size bytes
  pub expected : (n : ℕ) → expected_size d.type d.bytes ≡ some n → n ≤ d.size

check_size_lem :
    (address size : ℕ) (memory : Bool) (t : DescriptorType) (body : List ℕ) {d : Descriptor}
    → check_size address memory size t body ≡ accepted d
    → (d.address ≡ address)
      × (d.size ≡ size)
      × (d.bytes ≡ body)
      × (d.type ≡ t)
      × ((n : ℕ) × (expected_size t body ≡ some n) × (n ≤ size))
unfolding check_size
check_size_lem address size memory t body e = elim (Option-cases (expected_size t body)) [
  | inl n ↦ ground arith
  | inr (n, k) ↦ (ground arith, ground arith, ground arith, ground arith, (n, k, ground arith))
]

expected_size-le :
    (t : DescriptorType) (body : List ℕ) (n : ℕ) → expected_size t body ≡ some n → header_size ≤ n
unfolding expected_size
expected_size-le interface body n e = ground arith
expected_size-le bundle body n e = ground arith
expected_size-le cport body n e = ground arith
expected_size-le string [] n e = ground arith
expected_size-le string (l ∷ body) n e = ground arith

-- A descriptor that is accepted starts where the bytes do, is a header at least and no longer than the
-- bytes, and is as long as its type wants; its data follows its header.
pub identify_descriptor-Identified :
    (address : ℕ) (memory : Bool) (bytes : List ℕ) {d : Descriptor}
    → identify_descriptor address memory bytes ≡ accepted d
    → Identified address bytes d
unfolding identify_descriptor
identify_descriptor-Identified address memory [] e = ground arith
identify_descriptor-Identified address memory (a ∷ []) e = ground arith
identify_descriptor-Identified address memory (a ∷ b ∷ []) e = ground arith
identify_descriptor-Identified address memory (a ∷ b ∷ t ∷ []) e = ground arith
identify_descriptor-Identified address memory (a ∷ b ∷ t ∷ pad ∷ body) {d} e =
    elim (Option-cases (descriptor_type t)) [
      | inl n ↦ ground arith
      | inr (type, k) ↦
          let fits : a + 256 * b ≤ 4 + length body = ground arith in
          let checked : check_size address memory (a + 256 * b) type body ≡ accepted d =
            ground arith in
          let (p, q, r, s, (n, x, le)) =
            check_size_lem address (a + 256 * b) memory type body checked in
          let least = expected_size-le type body n x in
          record {
            address_is = p;
            least = omega arith;
            most = omega arith;
            body = r;
            expected = λ k y.
                ground (arith, ap (λ t. expected_size t body) s, ap (expected_size d.type) r);
          }
    ]

scan-nil :
    (fuel : ℕ) (memory : ℕ → Bool) (address : ℕ) → scan fuel memory address [] ≡ some (accepted [])
unfolding scan
scan-nil zero memory address = refl
scan-nil (suc fuel) memory address = refl

nil_accepted :
    (fuel : ℕ) (memory : ℕ → Bool) (address : ℕ) {ds : List Descriptor}
    → scan fuel memory address [] ≡ some (accepted ds)
    → [] ≡ ds
nil_accepted fuel memory address e = let start = scan-nil fuel memory address in ground arith

-- With fuel for each byte the pass ends: each descriptor takes four bytes at least.
pub scan_total :
    (fuel : ℕ) (memory : ℕ → Bool) (address : ℕ) (bytes : List ℕ)
    → length bytes ≤ fuel
    → (r : Outcome (List Descriptor)) × (scan fuel memory address bytes ≡ some r)
unfolding scan
scan_total fuel memory address [] h = (accepted [], scan-nil fuel memory address)
scan_total zero memory address (b ∷ bytes) h = absurd (omega arith)
scan_total (suc fuel) memory address (b ∷ bytes) h =
    go (scan_total fuel memory) (identify_descriptor address (memory address) (b ∷ bytes)) refl
  where
    go :
        ((a : ℕ) (bs : List ℕ)
          → length bs ≤ fuel
          → (r : Outcome (List Descriptor)) × (scan fuel memory a bs ≡ some r))
        → (o : Outcome Descriptor) → identify_descriptor address (memory address) (b ∷ bytes) ≡ o
        → (r : Outcome (List Descriptor)) × (scan (suc fuel) memory address (b ∷ bytes) ≡ some r)
    go ih fault e = (fault, rw (scan, e) refl)
    go ih rejected e = (rejected, rw (scan, e) refl)
    go ih (accepted d) e =
        let i = identify_descriptor-Identified address (memory address) (b ∷ bytes) e in
        let (r, k) =
          ih (address + 1) (drop d.size (b ∷ bytes))
            (omega (arith, length-drop d.size (b ∷ bytes), i.least)) in
        (prepend d r, rw (scan, e, k) refl)

-- The descriptors lie one behind the other, from the start of the bytes to their end, and are
-- numbered in order.
abbrev pub Tiles : ℕ → List ℕ → List Descriptor → Type 0
Tiles address bytes [] = bytes ≡ []
Tiles address bytes (d ∷ ds) =
    Identified address bytes d × Tiles (address + 1) (drop d.size bytes) ds

-- What the pass accepts is the whole buffer, cut into descriptors of valid sizes.
pub scan-Tiles :
    (fuel : ℕ) (memory : ℕ → Bool) (address : ℕ) (bytes : List ℕ) (ds : List Descriptor)
    → scan fuel memory address bytes ≡ some (accepted ds)
    → Tiles address bytes ds
unfolding scan
scan-Tiles fuel memory address [] ds e =
    subst (Tiles address []) (nil_accepted fuel memory address e) refl
scan-Tiles zero memory address (b ∷ bytes) ds e = ground arith
scan-Tiles (suc fuel) memory address (b ∷ bytes) ds e =
    go (scan-Tiles fuel memory) (identify_descriptor address (memory address) (b ∷ bytes)) refl
  where
    go :
        ((a : ℕ) (bs : List ℕ) (es : List Descriptor)
          → scan fuel memory a bs ≡ some (accepted es)
          → Tiles a bs es)
        → (o : Outcome Descriptor) → identify_descriptor address (memory address) (b ∷ bytes) ≡ o
        → Tiles address (b ∷ bytes) ds
    go ih fault i = ground arith
    go ih rejected i = ground arith
    go ih (accepted d) i = rest (scan fuel memory (address + 1) (drop d.size (b ∷ bytes))) refl
      where
        rest :
            (r : Option (Outcome (List Descriptor)))
            → scan fuel memory (address + 1) (drop d.size (b ∷ bytes)) ≡ r
            → Tiles address (b ∷ bytes) ds
        rest none k = ground arith
        rest (some fault) k = ground arith
        rest (some rejected) k = ground arith
        rest (some (accepted es)) k =
            let same : d ∷ es ≡ ds = ground arith in
            subst (Tiles address (b ∷ bytes)) same (
              identify_descriptor-Identified address (memory address) (b ∷ bytes) i,
              ih (address + 1) (drop d.size (b ∷ bytes)) es k,
            )
