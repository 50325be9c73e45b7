-- ===== src/Manifest/Tests.antt =====
-- A manifest of an interface descriptor, a string and a connection, and the theorems at it.
use greybus.Base.{ℕ, ◌≡◌, refl, Bool, true, some, List, [], ◌∷◌, arith, drop, All}
use greybus.Manifest.{
  Descriptor, interface, string, cport, fault, rejected, accepted, expected_size, descriptor_type,
  identify_descriptor, check_size, scan, interfaces, single_interface, parse, string_get,
}
use greybus.Manifest.Scan.{Tiles, scan-Tiles}
use greybus.Manifest.Encode.{Entry, IsWellSized, encode, describe, scan-encode}
use greybus.Manifest.Parse.{Parsed, parse-Parsed}

-- The interface names string 1 as its vendor; the string is "hi"; connection 7 has a protocol 2.
abbrev entries : List Entry
entries =
    record { type = interface; body = 1 ∷ 0 ∷ 0 ∷ 0 ∷ [] }
    ∷ record { type = string; body = 2 ∷ 1 ∷ 104 ∷ 105 ∷ [] }
    ∷ record { type = cport; body = 7 ∷ 0 ∷ 1 ∷ 2 ∷ [] }
    ∷ []

-- Its bytes, as they stand in the buffer.
abbrev bytes : List ℕ
bytes =
    8 ∷ 0 ∷ 1 ∷ 0 ∷ 1 ∷ 0 ∷ 0 ∷ 0 ∷ 8 ∷ 0 ∷ 2 ∷ 0 ∷ 2 ∷ 1 ∷ 104 ∷ 105 ∷ 8 ∷ 0 ∷ 4 ∷ 0 ∷ 7 ∷ 0 ∷ 1
    ∷ 2 ∷ []

abbrev always : ℕ → Bool
always n = true

encode-entries : encode entries ≡ bytes
unfolding encode
encode-entries = refl

-- The descriptors found in it.
abbrev found : List Descriptor
found =
    record { address = 0; size = 8; bytes = drop 4 bytes; type = interface }
    ∷ record { address = 1; size = 8; bytes = drop 12 bytes; type = string }
    ∷ record { address = 2; size = 8; bytes = drop 20 bytes; type = cport }
    ∷ []

scan_bytes : scan 24 always 0 bytes ≡ some (accepted found)
unfolding scan identify_descriptor check_size expected_size descriptor_type
scan_bytes = refl

identify_first :
    identify_descriptor 0 true bytes
    ≡ accepted (record { address = 0; size = 8; bytes = drop 4 bytes; type = interface })
unfolding identify_descriptor check_size expected_size descriptor_type
identify_first = refl

parse_bytes :
    parse always (28 ∷ 0 ∷ 0 ∷ 1 ∷ bytes)
    ≡ accepted (record { address = 0; size = 8; bytes = drop 4 bytes; type = interface }, found)
unfolding parse scan identify_descriptor check_size expected_size descriptor_type single_interface
    interfaces
parse_bytes = refl

-- A descriptor of a type that is not known ends the pass.
reject_unknown : scan 8 always 0 (4 ∷ 0 ∷ 9 ∷ 0 ∷ []) ≡ some rejected
unfolding scan identify_descriptor check_size expected_size descriptor_type
reject_unknown = refl

-- The header of a string alone, at the end of the buffer: its length is read from behind it.
read_behind : identify_descriptor 0 true (4 ∷ 0 ∷ 2 ∷ 0 ∷ []) ≡ fault
unfolding identify_descriptor check_size expected_size descriptor_type
read_behind = refl

-- The string is copied with the byte that follows it; at the end of the buffer there is none.
get_string :
    string_get true 1 found
    ≡ accepted (
      some (104 ∷ 105 ∷ []),
      record { address = 0; size = 8; bytes = drop 4 bytes; type = interface }
          ∷ record { address = 2; size = 8; bytes = drop 20 bytes; type = cport }
          ∷ [],
    )
unfolding string_get
get_string = refl

get_last :
    string_get true 1
      (record { address = 0; size = 8; bytes = 2 ∷ 1 ∷ 104 ∷ 105 ∷ []; type = string } ∷ [])
    ≡ fault
unfolding string_get
get_last = refl

entries_valid : All IsWellSized entries
unfolding expected_size
entries_valid = (
  (omega arith, λ rest. (8, refl, omega arith)),
  (
    (omega arith, λ rest. (8, refl, omega arith)),
    ((omega arith, λ rest. (8, refl, omega arith)), tt),
  ),
)

scan-Tiles_example : Tiles 0 bytes found
scan-Tiles_example = scan-Tiles 24 always 0 bytes found scan_bytes

scan-encode_example : scan 24 (λ _. true) 0 (encode entries) ≡ some (accepted (describe 0 entries))
unfolding encode
scan-encode_example = scan-encode 24 0 entries (omega arith) entries_valid

parse-Parsed_example :
    Parsed
      (28 ∷ 0 ∷ 0 ∷ 1 ∷ bytes)
      (record { address = 0; size = 8; bytes = drop 4 bytes; type = interface })
      found
parse-Parsed_example = parse-Parsed always (28 ∷ 0 ∷ 0 ∷ 1 ∷ bytes) _ found parse_bytes
