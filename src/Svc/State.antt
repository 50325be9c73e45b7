-- ===== src/Svc/State.antt =====
-- The state of the SVC and of a host device, and its interfaces, interface.c.
use greybus.Base.{ℕ, Bool, Option, none, some, List, [], ◌∷◌, ◌==◌, not, if◌then◌else◌, is_some}
use greybus.Errno.{Errno, success, einval, enomem, is_success}

-- `enum gb_svc_state`
pub data SvcState : Type 0 where
  reset protocol_version svc_hello : SvcState

-- `struct gb_interface`
pub record Interface : Type 0 where
  pub interface_id : ℕ
  pub device_id : ℕ
  pub unipro_mfg_id : ℕ
  pub unipro_prod_id : ℕ
  pub ara_vend_id : ℕ
  pub ara_prod_id : ℕ

-- `struct gb_svc_intf_hotplug_request`
pub record Hotplug : Type 0 where
  pub intf_id : ℕ
  pub unipro_mfg_id : ℕ
  pub unipro_prod_id : ℕ
  pub ara_vend_id : ℕ
  pub ara_prod_id : ℕ

-- The requests to the SVC.
pub data Request : Type 0 where
  intf_device_id : ℕ → ℕ → Request
  intf_reset : ℕ → Request
  conn_create : ℕ → ℕ → ℕ → ℕ → Request
  conn_destroy : ℕ → ℕ → ℕ → ℕ → Request
  route_create : ℕ → ℕ → ℕ → ℕ → Request

abbrev pub device_id_ap : ℕ
device_id_ap = 1

abbrev pub device_id_modules_start : ℕ
device_id_modules_start = 2

abbrev pub device_id_bad : ℕ
device_id_bad = 0xff

abbrev pub type_version : ℕ
type_version = 0x01

abbrev pub type_hello : ℕ
type_hello = 0x02

abbrev pub type_hotplug : ℕ
type_hotplug = 0x04

abbrev pub type_hot_unplug : ℕ
type_hot_unplug = 0x05

abbrev pub type_reset : ℕ
type_reset = 0x06

-- The version of the SVC protocol of this code.
abbrev pub version_major : ℕ
version_major = 0

abbrev pub version_minor : ℕ
version_minor = 1

-- ida_simple_get: the id, or the low byte of a negative error.
pub data IdaGet : Type 0 where
  took failed : ℕ → IdaGet

-- gb_control_get_manifest_size_operation
pub data ManifestSize : Type 0 where
  no_size : Errno → ManifestSize
  size : ℕ → ManifestSize

pub record Peer : Type 0 where
  pub has_memory : Bool
  pub endo_setup : Errno
  pub has_module : ℕ → Bool
  pub device_add : Errno
  pub ida_get : List ℕ → IdaGet
  pub device_id_set : Errno
  pub route_to : Errno
  pub route_back : Errno
  pub control : Errno
  pub manifest_size : ManifestSize
  pub manifest : Errno
  pub is_manifest_valid : Bool

-- The SVC, and of its host device the Endo (the id of the AP's interface in it), the interfaces, and
-- whether the first SVC connection has no bundle yet; the ids of `greybus_svc_device_id_map`; the
-- hotplugs that are queued; the last response, and the requests that were sent, the last one first.
pub record Host : Type 0 where
  pub state : SvcState
  pub module_major : ℕ
  pub module_minor : ℕ
  pub endo : Option ℕ
  pub is_initial : Bool
  pub interfaces : List Interface
  pub device_ids : List ℕ
  pub pending : List Hotplug
  pub response : List ℕ
  pub sent : List Request

-- gb_interface_find
unfoldable pub find : ℕ → List Interface → Option Interface
find interface_id [] = none
find interface_id (i ∷ is) = if i.interface_id == interface_id then some i else find interface_id is

-- The interface that gb_interface_create sets up; the other fields are zero.
abbrev pub blank : ℕ → Interface
blank interface_id = record {
  interface_id = interface_id;
  device_id = device_id_bad;
  unipro_mfg_id = 0;
  unipro_prod_id = 0;
  ara_vend_id = 0;
  ara_prod_id = 0;
}

-- gb_interface_create: the interface at the head of the list, or `none` for a null pointer; the call
-- faults if there is no Endo, and if device_add fails, as the interface is then freed twice.
unfoldable pub interface_create : Peer → ℕ → Host → Option (Option Host)
interface_create peer interface_id hd =
    if is_some (find interface_id hd.interfaces) then some none else elim hd.endo [
      | none ↦ none
      | some ap ↦
          if not (peer.has_module interface_id)
          then some none
          else if not peer.has_memory
          then some none
          else if not (is_success peer.device_add)
          then none
          else some (some (record hd { interfaces = blank interface_id ∷ hd.interfaces }))
    ]

-- The first interface with an id is changed.
unfoldable pub update : ℕ → (Interface → Interface) → List Interface → List Interface
update interface_id f [] = []
update interface_id f (i ∷ is) =
    if i.interface_id == interface_id then f i ∷ is else i ∷ update interface_id f is

-- The list after gb_interface_remove.
unfoldable pub remove : ℕ → List Interface → List Interface
remove interface_id [] = []
remove interface_id (i ∷ is) =
    if i.interface_id == interface_id then is else i ∷ remove interface_id is

-- gb_interface_init after the device id is set: its result.
unfoldable pub interface_init : Peer → Errno
interface_init peer =
    if not (is_success peer.control) then peer.control else elim peer.manifest_size [
      | no_size e ↦ if is_success e then einval else e
      | size n ↦
          if n == 0
          then einval
          else if not peer.has_memory
          then enomem
          else if not (is_success peer.manifest)
          then peer.manifest
          else if not peer.is_manifest_valid
          then einval
          else success
    ]
