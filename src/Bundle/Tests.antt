-- ===== src/Bundle/Tests.antt =====
-- A driver's table of two entries and the end.
use greybus.Base.{ℕ, ◌≡◌, refl, true, none, some, List, [], ◌∷◌, ◌++◌}
use greybus.Errno.{success}
use greybus.Bundle.{
  Bundle, BundleId, match_one_id, is_entry, match_id, match_table, find, create_bundle,
}

abbrev bundle : Bundle
bundle = record { id = 4; class = 5; vendor = 0x10; product = 0x20; unique_id = 99 }

abbrev entry : ℕ → ℕ → ℕ → BundleId
entry flags vendor class = record {
  match_flags = flags;
  vendor = vendor;
  product = 0;
  unique_id = 0;
  class = class;
  driver_info = 0;
}

-- The first wants another vendor, the second the class alone.
abbrev entries : List BundleId
entries = entry 1 0x11 0 ∷ entry 8 0 5 ∷ []

no_table : match_table bundle none ≡ some none
unfolding match_table
no_table = refl

second : match_table bundle (some (entries ++ entry 0 0 0 ∷ [])) ≡ some (some (entry 8 0 5))
unfolding match_table match_id match_one_id is_entry
second = refl

reused_id : create_bundle true success bundle (bundle ∷ []) ≡ some (none, bundle ∷ [])
unfolding create_bundle find
reused_id = refl
