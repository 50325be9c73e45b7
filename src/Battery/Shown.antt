-- ===== src/Battery/Shown.antt =====
-- What a power supply's property is, for what the module answers.
use greybus.Base.{
  ℕ, ◌-◌, ◌^◌, ◌≡◌, refl, arith, Bool, true, false, Option, none, some, List, [], ltb,
  if◌then◌else◌, ap, inl, inr, Bool-cases,
}
use greybus.Errno.{Errno, einval, is_success}
use greybus.Sync.{Serve, received, operation_sync}
use greybus.Battery.{
  Intval, value, failure, negative, int_of, Property, technology, status, max_voltage, capacity,
  temperature, voltage, other_property, tech_of, tech_number, status_of, status_number, word, half,
  query, get_tech, get_status, get_max_voltage, get_percent_capacity, get_temp, get_voltage, finish,
  get_property,
}
use greybus.Battery.Kind

-- The request that a property makes, and the size of its response.
abbrev pub kind_of : Property → ℕ
kind_of technology = Kind.technology
kind_of status = Kind.status
kind_of max_voltage = Kind.max_voltage
kind_of capacity = Kind.percent_capacity
kind_of temperature = Kind.temperature
kind_of voltage = Kind.voltage
kind_of other_property = 0

abbrev pub size_of : Property → ℕ
size_of status = 2
size_of _ = 4

-- The number of a response, if the greatest that is known is `max`, or 0.
abbrev known : ℕ → ℕ → ℕ
known max n = if ltb max n then 0 else n

-- A number of 32 bits with a sign: returned as an error if it is negative.
abbrev signed : ℕ → Intval × Option Intval
signed n =
    if ltb n (2 ^ 31)
    then (value 0, some (value n))
    else (negative (2 ^ 32 - n), some (negative (2 ^ 32 - n)))

-- What a property is, for the payload of the response.
abbrev pub shown : Property → List ℕ → Intval × Option Intval
shown technology bytes = (value 0, some (value (known 6 (word bytes))))
shown status bytes = (value 0, some (value (known 4 (half bytes))))
shown other_property bytes = (failure einval, none)
shown _ bytes = signed (word bytes)

abbrev pub is_asked : Property → Bool
is_asked other_property = false
is_asked _ = true

tech_lem : (n : ℕ) → tech_number (tech_of n) ≡ known 6 n
unfolding tech_of
tech_lem n = ground arith

status_lem : (n : ℕ) → status_number (status_of n) ≡ known 4 n
unfolding status_of
status_lem n = ground arith

finish-int_of : (n : ℕ) → finish (int_of n) ≡ signed n
unfolding finish int_of
finish-int_of n = ground arith

-- The end of the call, for what was received.
finish_all :
    (x : Errno × List ℕ) (make : List ℕ → Intval) (show : List ℕ → Intval × Option Intval)
    → ((bytes : List ℕ) → finish (make bytes) ≡ show bytes)
    → finish (if is_success x.0 then make x.1 else failure x.0)
      ≡ (if is_success x.0 then show x.1 else (failure x.0, some (failure x.0)))
unfolding finish
finish_all (e, bytes) make show h = elim (Bool-cases (is_success e)) [
  | inl y ↦ rw y (h bytes)
  | inr n ↦ rw n refl
]

at_end :
    {R : Type 0} (serve : Serve R) (p : Property) (r : R) (make : List ℕ → Intval)
    → ((bytes : List ℕ) → finish (make bytes) ≡ shown p bytes)
    → (let (answer, r') = serve (kind_of p) [] r in
        let (ret, bytes) = received (size_of p) answer in
        ◌≡◌ {A = Option ((Intval × Option Intval) × (Unit {0} × R))}
          (some (finish (if is_success ret then make bytes else failure ret), (tt, r')))
          (some (
            if is_success ret then shown p bytes else (failure ret, some (failure ret)),
            (tt, r'),
          )))
at_end serve p r make h =
    let (answer, r') = serve (kind_of p) [] r in
    ap (λ z. some (z, (tt, r'))) (finish_all (received (size_of p) answer) make (shown p) h)

-- Asking for a property that the driver has makes one request. If it succeeds, the technology and the
-- status are the number of the response if it is a known one, and else unknown; every other property
-- is the number of the response as one with a sign, and a negative one is returned as an error. If it
-- fails, the failure is returned. Another property is -EINVAL and asks nothing.
pub get_property-shown :
    {R : Type 0} (serve : Serve R) (p : Property) (r : R)
    → (let (answer, r') = serve (kind_of p) [] r in
        let (ret, bytes) = received (size_of p) answer in
        get_property serve p (tt, r)
        ≡ some (
          if is_asked p
              then if is_success ret then shown p bytes else (failure ret, some (failure ret))
              else shown p bytes,
          (tt, if is_asked p then r' else r),
        ))
unfolding get_property get_tech get_status get_max_voltage get_percent_capacity get_temp get_voltage
    query operation_sync finish
get_property-shown serve technology r =
    at_end serve technology r (λ bytes. value (tech_number (tech_of (word bytes))))
      (λ bytes. ap (λ n. (value 0, some (value n))) (tech_lem (word bytes)))
get_property-shown serve status r =
    at_end serve status r (λ bytes. value (status_number (status_of (half bytes))))
      (λ bytes. ap (λ n. (value 0, some (value n))) (status_lem (half bytes)))
get_property-shown serve max_voltage r =
    at_end serve max_voltage r (λ bytes. int_of (word bytes)) (λ bytes. finish-int_of (word bytes))
get_property-shown serve capacity r =
    at_end serve capacity r (λ bytes. int_of (word bytes)) (λ bytes. finish-int_of (word bytes))
get_property-shown serve temperature r =
    at_end serve temperature r (λ bytes. int_of (word bytes)) (λ bytes. finish-int_of (word bytes))
get_property-shown serve voltage r =
    at_end serve voltage r (λ bytes. int_of (word bytes)) (λ bytes. finish-int_of (word bytes))
get_property-shown serve other_property r = refl
