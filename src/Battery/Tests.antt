-- ===== src/Battery/Tests.antt =====
-- A battery of three degrees below zero.
use greybus.Base.{ℕ, ◌≡◌, refl, some, List, [], ◌∷◌, if◌then◌else◌}
use greybus.Errno.{success, is_success}
use greybus.Sync.{Serve, answered, received}
use greybus.Battery.{negative, failure, get_property, temperature}
use greybus.Battery.Shown.{kind_of, size_of, shown, is_asked, get_property-shown}

abbrev serve : Serve (List ℕ)
serve kind payload log = (answered success (253 ∷ 255 ∷ 255 ∷ 255 ∷ []), kind ∷ log)

below_zero : shown temperature (253 ∷ 255 ∷ 255 ∷ 255 ∷ []) ≡ (negative 3, some (negative 3))
below_zero = refl

get_property-shown_example :
    (let (answer, r') = serve (kind_of temperature) [] [] in
      let (ret, bytes) = received (size_of temperature) answer in
      get_property serve temperature (tt, [])
      ≡ some (
        if is_asked temperature
            then if is_success ret
              then shown temperature bytes
              else (failure ret, some (failure ret))
            else shown temperature bytes,
        (tt, if is_asked temperature then r' else []),
      ))
get_property-shown_example = get_property-shown serve temperature []
