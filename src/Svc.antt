-- ===== src/Svc.antt =====
-- The SVC protocol, svc.c, with the interfaces of a host device, interface.c: the order of the SVC's
-- requests, and the life of an interface from its hotplug to its removal.
-- What the kernel, the Endo and the other end answer in one call is a `Peer`. A request's payload is a
-- list of bytes. `none` is a memory fault: a read past a payload, or a use of an Endo that was freed.
use greybus.Base.{
  ℕ, ◌+◌, ◌%◌, Bool, true, false, Option, none, some, List, [], ◌∷◌, ◌++◌, ◌==◌, ltb, not, ◌&&◌,
  if◌then◌else◌, erase, is_some,
}
use greybus.Base.Bytes.{le32}
use greybus.Errno.{Errno, success, einval, enomem, enotsupp, is_success}
use mathlib.Core.Option
use greybus.Operation.Message.{low, high, le16}
pub mod State
unfoldable pub use State.*
pub mod Order
pub mod Turn
pub mod Devices
pub mod Quiet
pub mod Allocated
pub mod Reached
pub mod Startup
mod Tests

-- The bytes of a request, in the order of this machine, which is taken to be little-endian.
unfoldable pub request_bytes : Request → List ℕ
request_bytes (intf_device_id i d) = i ∷ d ∷ []
request_bytes (intf_reset i) = i ∷ []
request_bytes (conn_create i c j d) = i ∷ low c ∷ high c ∷ j ∷ low d ∷ high d ∷ 0 ∷ 0x05 ∷ []
request_bytes (conn_destroy i c j d) = i ∷ low c ∷ high c ∷ j ∷ low d ∷ high d ∷ []
request_bytes (route_create i d j e) = i ∷ d ∷ j ∷ e ∷ []

-- A request to the SVC, with the answer to it.
unfoldable pub sync : Request → Errno → Host → Errno × Host
sync request answer hd = (answer, record hd { sent = request ∷ hd.sent })

-- The labels `ida_put` and `destroy_interface` of svc_process_hotplug.
unfoldable pub put_back : ℕ → ℕ → Host → Host
put_back device_id intf_id hd = record hd {
  device_ids = erase device_id hd.device_ids;
  interfaces = remove intf_id hd.interfaces;
}

-- svc_process_hotplug from the two routes on; the Endo is read.
unfoldable pub bring_up : Peer → ℕ → ℕ → ℕ → Host → Host
bring_up peer ap intf_id device_id hd =
    let (ret1, hd1) = sync (intf_device_id intf_id device_id) peer.device_id_set hd in
    if not (is_success ret1)
    then put_back device_id intf_id hd1
    else let (ret2, hd2) =
        sync (route_create ap device_id_ap intf_id device_id) peer.route_to hd1 in
      if not (is_success ret2)
      then put_back device_id intf_id hd2
      else let (ret3, hd3) =
          sync (route_create intf_id device_id ap device_id_ap) peer.route_back hd2 in
        if not (is_success ret3)
        then put_back device_id intf_id hd3
        else let hd4 = record hd3 {
          interfaces = update intf_id (λ i. record i { device_id = device_id }) hd3.interfaces;
        } in
          if is_success (interface_init peer) then hd4 else put_back device_id intf_id hd4

-- The device id in a `u8`, and the map: an error of ida_simple_get is an id there, as the test
-- `device_id < 0` never holds.
unfoldable pub take_device_id : Peer → Host → ℕ × Host
take_device_id peer hd = elim (peer.ida_get hd.device_ids) [
  | took d ↦ (d % 256, record hd { device_ids = d ∷ hd.device_ids })
  | failed low_byte ↦ (low_byte, hd)
]

-- svc_process_hotplug of an entry that the work queue gave up.
unfoldable pub process_hotplug : Peer → Hotplug → Host → Option Host
process_hotplug peer hotplug hd = elim (interface_create peer hotplug.intf_id hd) [
  | none ↦ none
  | some none ↦ some hd
  | some (some hd1) ↦ elim hd1.endo [
    | none ↦ none
    | some ap ↦
        let hd2 = record hd1 {
          interfaces =
              update hotplug.intf_id
                (λ i. record i {
                  unipro_mfg_id = hotplug.unipro_mfg_id;
                  unipro_prod_id = hotplug.unipro_prod_id;
                  ara_vend_id = hotplug.ara_vend_id;
                  ara_prod_id = hotplug.ara_prod_id;
                })
                hd1.interfaces;
        } in
        let (device_id, hd3) = take_device_id peer hd2 in
        some (bring_up peer ap hotplug.intf_id device_id hd3)
  ]
]

-- gb_svc_version_request; the payload is read without a test of its size, the minor number only if the
-- major one is supported.
unfoldable pub version_request : Peer → List ℕ → Host → Option (Errno × Host)
version_request peer (major ∷ minor ∷ rest) hd =
    if ltb version_major major
    then some (enotsupp, hd)
    else let hd1 = record hd { module_major = major; module_minor = minor } in
      if not peer.has_memory
      then some (enomem, hd1)
      else some (success, record hd1 { response = version_major ∷ version_minor ∷ [] })
version_request peer (major ∷ []) hd = if ltb version_major major then some (enotsupp, hd) else none
version_request peer [] hd = none

-- gb_ap_interface_create, and the end of gb_svc_hello: without an interface the Endo is removed, and
-- the result is that of greybus_endo_setup.
unfoldable pub ap_interface_create : Peer → ℕ → Host → Option (Errno × Host)
ap_interface_create peer interface_id hd = elim (interface_create peer interface_id hd) [
  | none ↦ none
  | some none ↦ some (success, record hd { endo = none })
  | some (some hd1) ↦ some (
    success,
    record hd1 {
      interfaces = update interface_id (λ i. record i { device_id = device_id_ap }) hd1.interfaces;
      is_initial = false;
    },
  )
]

-- gb_svc_hello
unfoldable pub hello : Peer → List ℕ → Host → Option (Errno × Host)
hello peer (endo_low ∷ endo_high ∷ interface_id ∷ rest) hd =
    if not (is_success peer.endo_setup)
    then some (peer.endo_setup, hd)
    else ap_interface_create peer interface_id (record hd { endo = some interface_id })
hello peer short hd = some (einval, hd)

-- The data of a hotplug, if the payload is long enough.
unfoldable pub read_hotplug : List ℕ → Option Hotplug
read_hotplug (i ∷ a ∷ b ∷ c ∷ d ∷ e ∷ f ∷ g ∷ h ∷ j ∷ k ∷ l ∷ m ∷ n ∷ o ∷ p ∷ q ∷ rest) =
    some (record {
      intf_id = i;
      unipro_mfg_id = le32 a b c d;
      unipro_prod_id = le32 e f g h;
      ara_vend_id = le32 j k l m;
      ara_prod_id = le32 n o p q;
    })
read_hotplug short = none

-- gb_svc_intf_hotplug_recv
unfoldable pub hotplug_recv : Peer → List ℕ → Host → Errno × Host
hotplug_recv peer payload hd = elim (read_hotplug payload) [
  | none ↦ (einval, hd)
  | some hotplug ↦
      if not peer.has_memory
      then (enomem, hd)
      else (success, record hd { pending = hd.pending ++ hotplug ∷ [] })
]

-- gb_svc_intf_hot_unplug_recv
unfoldable pub hot_unplug_recv : List ℕ → Host → Errno × Host
hot_unplug_recv [] hd = (einval, hd)
hot_unplug_recv (intf_id ∷ rest) hd = elim (find intf_id hd.interfaces) [
  | none ↦ (einval, hd)
  | some i ↦ (success, put_back i.device_id intf_id hd)
]

-- gb_svc_intf_reset_recv
unfoldable pub reset_recv : List ℕ → Host → Errno × Host
reset_recv [] hd = (einval, hd)
reset_recv (intf_id ∷ rest) hd = (success, hd)

-- The first switch of gb_svc_request_recv.
unfoldable pub is_expected : ℕ → SvcState → Bool
is_expected type state =
    if type == type_version
    then elim state [ reset ↦ true | protocol_version ↦ false | svc_hello ↦ false ]
    else if type == type_hello
    then elim state [ reset ↦ false | protocol_version ↦ true | svc_hello ↦ false ]
    else elim state [ reset ↦ false | protocol_version ↦ false | svc_hello ↦ true ]

-- `if (!ret) svc->state = ...`
unfoldable pub advance : SvcState → Errno × Host → Errno × Host
advance state (ret, hd) = (ret, if is_success ret then record hd { state = state } else hd)

-- gb_svc_request_recv
unfoldable pub request_recv : Peer → ℕ → List ℕ → Host → Option (Errno × Host)
request_recv peer type payload hd =
    if not (is_expected type hd.state)
    then some (einval, hd)
    else if type == type_version
    then Option.map (advance protocol_version) (version_request peer payload hd)
    else if type == type_hello
    then Option.map (advance svc_hello) (hello peer payload hd)
    else if type == type_hotplug
    then some (hotplug_recv peer payload hd)
    else if type == type_hot_unplug
    then some (hot_unplug_recv payload hd)
    else if type == type_reset
    then some (reset_recv payload hd)
    else some (einval, hd)

-- gb_svc_connection_init
unfoldable pub connection_init : Peer → Host → Errno × Host
connection_init peer hd =
    if not peer.has_memory
    then (enomem, hd)
    else (success, record hd { state = reset; is_initial = true; device_ids = [] })
