-- ===== src/Manifest/Parse.antt =====
-- What gb_manifest_parse accepts: the header, the cut of the buffer, and the one interface descriptor.
use greybus.Base.{
  ℕ, ◌≤◌, ◌≡◌, Bool, Option, none, some, List, [], ◌∷◌, arith, length, drop, Option-cases, inl, inr,
  refl, subst, ap,
}
use greybus.Manifest.{
  Descriptor, Outcome, fault, rejected, accepted, header_size, scan, interfaces, single_interface,
  parse,
}
use greybus.Manifest.Scan.{Tiles, scan-Tiles}

-- What is accepted of a manifest.
pub record Parsed (bytes : List ℕ) (d : Descriptor) (ds : List Descriptor) : Type 0 where
  pub headed : header_size ≤ length bytes
  pub tiled : Tiles 0 (drop header_size bytes) ds
  pub only : interfaces ds ≡ d ∷ []

single_interface_lem :
    (ds : List Descriptor) (d : Descriptor) → single_interface ds ≡ some d → interfaces ds ≡ d ∷ []
unfolding single_interface
single_interface_lem ds d e = go (interfaces ds) refl
  where
    go : (es : List Descriptor) → interfaces ds ≡ es → interfaces ds ≡ d ∷ []
    go [] k = ground arith
    go (x ∷ []) k = ground arith
    go (x ∷ y ∷ more) k = ground arith

-- An accepted manifest has its header, its other bytes are cut into descriptors of valid sizes with
-- none left over, and one of these and no more is an interface descriptor: the one returned.
pub parse-Parsed :
    (memory : ℕ → Bool) (bytes : List ℕ) (d : Descriptor) (ds : List Descriptor)
    → parse memory bytes ≡ accepted (d, ds)
    → Parsed bytes d ds
unfolding parse
parse-Parsed memory [] d ds e = ground arith
parse-Parsed memory (a ∷ []) d ds e = ground arith
parse-Parsed memory (a ∷ b ∷ []) d ds e = ground arith
parse-Parsed memory (a ∷ b ∷ m ∷ []) d ds e = ground arith
parse-Parsed memory (a ∷ b ∷ m ∷ n ∷ body) d ds e = go (scan (length body) memory 0 body) refl
  where
    go :
        (r : Option (Outcome (List Descriptor)))
        → scan (length body) memory 0 body ≡ r
        → Parsed (a ∷ b ∷ m ∷ n ∷ body) d ds
    go none k = ground arith
    go (some fault) k = ground arith
    go (some rejected) k = ground arith
    go (some (accepted es)) k = elim (Option-cases (single_interface es)) [
      | inl x ↦ ground arith
      | inr (c, x) ↦
          let found : c ≡ d = ground arith in
          let same : es ≡ ds = ground arith in
          record {
            headed = omega arith;
            tiled = subst (Tiles 0 body) same (scan-Tiles (length body) memory 0 body es k);
            only = single_interface_lem ds d (ground (arith, ap single_interface same));
          }
    ]
