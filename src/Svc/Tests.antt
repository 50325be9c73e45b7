-- ===== src/Svc/Tests.antt =====
-- A host device with nothing: the AP's interface is 7, and interface 3 is plugged in.
use greybus.Base.{ℕ, ◌≡◌, refl, true, false, not, ◌&&◌, none, some, List, [], ◌∷◌, arith}
use greybus.Errno.{Errno, success, einval}
use greybus.Svc.{
  reset, protocol_version, svc_hello, Hotplug, took, size, Peer, Host, find, interface_init,
  process_hotplug, version_request, read_hotplug, hot_unplug_recv, is_expected, advance,
  request_recv, type_version, type_hello, request_bytes, route_create,
}
use greybus.Svc.Order.{Holds}
use greybus.Svc.Turn.{InOrder, request_recv-InOrder}
use greybus.Svc.Devices.{AddedOrNot, Kept, plugged, is_ignored, is_up, process_hotplug-AddedOrNot}
use greybus.Svc.Quiet.{Reach, start, later, request, IsQuiet, Reach-IsQuiet}
use greybus.Svc.Allocated.{IsAllocated}
use greybus.Svc.Reached.{IsServed, Reach-IsAllocated}
use greybus.Svc.Startup.{IsGood, CameUp, hotplug_up, hello_without_interface}

abbrev good : Peer
good = record {
  has_memory = true;
  endo_setup = success;
  has_module = λ id. true;
  device_add = success;
  ida_get = λ ds. took 2;
  device_id_set = success;
  route_to = success;
  route_back = success;
  control = success;
  manifest_size = size 40;
  manifest = success;
  is_manifest_valid = true;
}

abbrev full : Peer
full = record good { has_memory = false }

abbrev nothing : Host
nothing = record {
  state = reset;
  module_major = 0;
  module_minor = 0;
  endo = none;
  is_initial = true;
  interfaces = [];
  device_ids = [];
  pending = [];
  response = [];
  sent = [];
}

abbrev greeted : Host
greeted = record nothing { state = svc_hello; endo = some 7 }

abbrev camera : Hotplug
camera = record {
  intf_id = 3;
  unipro_mfg_id = 1;
  unipro_prod_id = 2;
  ara_vend_id = 3;
  ara_prod_id = 4;
}

abbrev camera_bytes : List ℕ
camera_bytes = 3 ∷ 1 ∷ 0 ∷ 0 ∷ 0 ∷ 2 ∷ 0 ∷ 0 ∷ 0 ∷ 3 ∷ 0 ∷ 0 ∷ 0 ∷ 4 ∷ 0 ∷ 0 ∷ 0 ∷ []

route : request_bytes (route_create 7 1 3 2) ≡ 7 ∷ 1 ∷ 3 ∷ 2 ∷ []
unfolding request_bytes
route = refl

hello_early : request_recv good type_hello (0 ∷ 0 ∷ 7 ∷ []) nothing ≡ some (einval, nothing)
unfolding request_recv is_expected
hello_early = refl

unplug_unknown : hot_unplug_recv (3 ∷ []) greeted ≡ (einval, greeted)
unfolding hot_unplug_recv find
unplug_unknown = refl

good-IsGood : IsGood good
unfolding interface_init
good-IsGood = record { memory = refl; setup = refl; modules = λ id. refl; added = refl; up = refl }

request_recv-InOrder_example :
    Holds
      (λ ((ret, hd') : Errno × Host). InOrder type_hello nothing ret hd')
      (request_recv good type_hello (0 ∷ 0 ∷ 7 ∷ []) nothing)
request_recv-InOrder_example = request_recv-InOrder good type_hello (0 ∷ 0 ∷ 7 ∷ []) nothing

process_hotplug-AddedOrNot_example :
    (hd' : Host) × (process_hotplug good camera greeted ≡ some hd')
    × AddedOrNot (plugged camera 2) [] 2 [] (not (is_ignored good camera greeted) && is_up good) hd'
    × Kept greeted hd'
process_hotplug-AddedOrNot_example =
    process_hotplug-AddedOrNot good camera greeted 7 2 refl refl refl (ground arith)

hotplug_up_example : CameUp good nothing (0 ∷ 1 ∷ []) (0 ∷ 0 ∷ 7 ∷ []) camera_bytes 7 camera 2
unfolding read_hotplug
hotplug_up_example =
    hotplug_up good nothing 1 0 0 7 2 camera_bytes camera good-IsGood
      (refl, (refl, refl, refl, refl)) refl refl refl (ground arith) (ground arith)

abbrev versioned : Host
versioned = record nothing { state = protocol_version; module_minor = 1; response = 0 ∷ 1 ∷ [] }

version_accepted : request_recv good type_version (0 ∷ 1 ∷ []) nothing ≡ some (success, versioned)
unfolding request_recv is_expected version_request advance
version_accepted = refl

Reach-IsQuiet_example : IsQuiet versioned
Reach-IsQuiet_example =
    Reach-IsQuiet (λ peer hd. Unit) nothing versioned (refl, refl, refl, refl)
      (later start (request good type_version (0 ∷ 1 ∷ []) success tt version_accepted))

plugged_in : (hd : Host) × Reach IsServed nothing hd
unfolding read_hotplug
plugged_in =
    let up =
      hotplug_up good nothing 1 0 0 7 2 camera_bytes camera good-IsGood
        (refl, (refl, refl, refl, refl)) refl refl refl (ground arith) (ground arith) in
    (up.last, up.run)

Reach-IsAllocated_example : IsAllocated plugged_in.0
Reach-IsAllocated_example =
    Reach-IsAllocated nothing plugged_in.0 (refl, refl, refl, refl) plugged_in.1

hello_without_interface_example :
    let left : Host = record nothing { state = svc_hello; endo = none } in
    (request_recv full type_hello (0 ∷ 0 ∷ 7 ∷ []) (record nothing { state = protocol_version })
      ≡ some (success, left))
    × (process_hotplug good camera left ≡ none)
hello_without_interface_example =
    hello_without_interface full good (record nothing { state = protocol_version }) 0 0 7 camera
      refl refl refl refl
