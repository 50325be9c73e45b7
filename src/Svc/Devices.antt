-- ===== src/Svc/Devices.antt =====
-- The ids of devices: a hotplug adds an interface with a device id of its own, or leaves nothing.
use greybus.Base.{
  ℕ, ◌<◌, ◌≡◌, refl, inl, inr, Bool, true, false, none, some, List, ◌∷◌, not, ◌&&◌, ◌||◌,
  if◌then◌else◌, arith, erase, is_some, Bool-cases, ◌∙◌, ap,
}
use greybus.Errno.{is_success}
use greybus.Svc.{
  Interface, Hotplug, device_id_bad, took, Peer, Host, find, blank, interface_create, update,
  remove, interface_init, sync, put_back, bring_up, take_device_id, process_hotplug,
}

-- A device id is assigned, the routes are made, and the interface is initialised.
abbrev pub is_up : Peer → Bool
is_up peer =
    is_success peer.device_id_set
    && is_success peer.route_to
    && is_success peer.route_back
    && is_success (interface_init peer)

-- What a hotplug does not change.
abbrev pub Kept : Host → Host → Type 0
Kept hd hd' = (hd'.state ≡ hd.state) × (hd'.endo ≡ hd.endo) × (hd'.pending ≡ hd.pending)

-- The interface is in front with its device id, or neither it nor the id is left.
abbrev pub AddedOrNot : Interface → List Interface → ℕ → List ℕ → Bool → Host → Type 0
AddedOrNot i is d ds b hd' =
    if b
    then (hd'.interfaces ≡ record i { device_id = d } ∷ is) × (hd'.device_ids ≡ d ∷ ds)
    else (hd'.interfaces ≡ is) × (hd'.device_ids ≡ ds)

remove_head : (i : Interface) (is : List Interface) → remove i.interface_id (i ∷ is) ≡ is
unfolding remove
remove_head i is = ground arith

erase_head : (d : ℕ) (ds : List ℕ) → erase d (d ∷ ds) ≡ ds
erase_head d ds = ground arith

update_head :
    (i : Interface) (is : List Interface) (f : Interface → Interface)
    → update i.interface_id f (i ∷ is) ≡ f i ∷ is
unfolding update
update_head i is f = ground arith

bring_up_lem :
    (peer : Peer) (ap_id : ℕ) (i : Interface) (is : List Interface) (d : ℕ) (ds : List ℕ)
    (hd : Host)
    → hd.interfaces ≡ i ∷ is
    → hd.device_ids ≡ d ∷ ds
    → AddedOrNot i is d ds (is_up peer) (bring_up peer ap_id i.interface_id d hd)
      × Kept hd (bring_up peer ap_id i.interface_id d hd)
unfolding bring_up sync put_back
bring_up_lem peer ap_id i is d ds hd e f =
    let x : remove i.interface_id hd.interfaces ≡ is =
      ap (remove i.interface_id) e ∙ remove_head i is in
    let y : erase d hd.device_ids ≡ ds = ap (erase d) f ∙ erase_head d ds in
    let u : update i.interface_id (λ i. record i { device_id = d }) hd.interfaces
        ≡ record i { device_id = d } ∷ is =
      ap (update i.interface_id (λ i. record i { device_id = d })) e
      ∙ update_head i is (λ i. record i { device_id = d }) in
    elim (Bool-cases (is_success peer.device_id_set)) [
      | inr n ↦ rw n ((x, y), (refl, refl, refl))
      | inl a ↦ rw a (elim (Bool-cases (is_success peer.route_to)) [
        | inr n ↦ rw n ((x, y), (refl, refl, refl))
        | inl b ↦ rw b (elim (Bool-cases (is_success peer.route_back)) [
          | inr n ↦ rw n ((x, y), (refl, refl, refl))
          | inl c ↦ rw c (elim (Bool-cases (is_success (interface_init peer))) [
            | inr n ↦ rw n (
              (ap (remove i.interface_id) u ∙ remove_head (record i { device_id = d }) is, y),
              (refl, refl, refl),
            )
            | inl z ↦ rw z ((u, f), (refl, refl, refl))
          ])
        ])
      ])
    ]

-- An interface as a hotplug creates it, with a device id.
abbrev pub plugged : Hotplug → ℕ → Interface
plugged h d = record {
  interface_id = h.intf_id;
  device_id = d;
  unipro_mfg_id = h.unipro_mfg_id;
  unipro_prod_id = h.unipro_prod_id;
  ara_vend_id = h.ara_vend_id;
  ara_prod_id = h.ara_prod_id;
}

-- What a hotplug leaves. It is ignored if there is an interface with its id, if the Endo has no module
-- for it, or without memory.
abbrev pub is_ignored : Peer → Hotplug → Host → Bool
is_ignored peer h hd =
    is_some (find h.intf_id hd.interfaces) || not (peer.has_module h.intf_id) || not peer.has_memory

-- svc_process_hotplug copies the ids of the module.
abbrev fill : Hotplug → Interface → Interface
fill h i = record i {
  unipro_mfg_id = h.unipro_mfg_id;
  unipro_prod_id = h.unipro_prod_id;
  ara_vend_id = h.ara_vend_id;
  ara_prod_id = h.ara_prod_id;
}

module _ (peer : Peer) (h : Hotplug) (hd : Host) (ap_id d : ℕ) (endo : hd.endo ≡ some ap_id)
    (added : is_success peer.device_add ≡ true) where
  interface_create_ignored :
      is_ignored peer h hd ≡ true → interface_create peer h.intf_id hd ≡ some none
  unfolding interface_create
  interface_create_ignored y = elim (Bool-cases (is_some (find h.intf_id hd.interfaces))) [
    | inl a ↦ rw a refl
    | inr a ↦ elim (Bool-cases (peer.has_module h.intf_id)) [
      | inr b ↦ ground (arith, endo)
      | inl b ↦ ground (arith, endo)
    ]
  ]

  interface_create_new :
      is_ignored peer h hd ≡ false
      → interface_create peer h.intf_id hd
        ≡ some (some (record hd { interfaces = blank h.intf_id ∷ hd.interfaces }))
  unfolding interface_create
  interface_create_new n = ground (arith, endo, added)

  process_hotplug_of :
      (hd1 hd3 : Host)
      → interface_create peer h.intf_id hd ≡ some (some hd1)
      → hd1.endo ≡ some ap_id
      → take_device_id peer (record hd1 { interfaces = update h.intf_id (fill h) hd1.interfaces })
        ≡ (d, hd3)
      → process_hotplug peer h hd ≡ some (bring_up peer ap_id h.intf_id d hd3)
  unfolding process_hotplug
  process_hotplug_of hd1 hd3 e f g = ground arith

  take_device_id_lem :
      (hd2 : Host)
      → peer.ida_get hd2.device_ids ≡ took d
      → d < 256
      → take_device_id peer hd2 ≡ (d, record hd2 { device_ids = d ∷ hd2.device_ids })
  unfolding take_device_id
  take_device_id_lem hd2 got small = ground arith

  process_hotplug_new :
      is_ignored peer h hd ≡ false
      → peer.ida_get hd.device_ids ≡ took d
      → d < 256
      → process_hotplug peer h hd
        ≡ some (
            bring_up peer ap_id h.intf_id d (record hd {
              interfaces = plugged h device_id_bad ∷ hd.interfaces;
              device_ids = d ∷ hd.device_ids;
            }))
  process_hotplug_new n got small =
      let created : Host = record hd { interfaces = blank h.intf_id ∷ hd.interfaces } in
      process_hotplug_of created _ (interface_create_new n) endo (
        take_device_id_lem
          (record created { interfaces = update h.intf_id (fill h) created.interfaces }) got small
        ∙ ap (λ is. (d, record hd { interfaces = is; device_ids = d ∷ hd.device_ids }))
            (update_head (blank h.intf_id) hd.interfaces (fill h)))

  process_hotplug_ignored : is_ignored peer h hd ≡ true → process_hotplug peer h hd ≡ some hd
  unfolding process_hotplug
  process_hotplug_ignored y = rw (interface_create_ignored y, process_hotplug) refl

-- A hotplug is handled whole or leaves the interfaces and the device ids as they were: with an Endo,
-- if the device can be added and ida_simple_get gives a number that fits into a byte, it does not
-- fault; the new interface is in front, with the ids of the hotplug and its device id, exactly if it
-- was not ignored, the SVC assigned the device id and made both routes, and it was initialised.
pub process_hotplug-AddedOrNot :
    (peer : Peer) (h : Hotplug) (hd : Host) (ap_id d : ℕ)
    → hd.endo ≡ some ap_id
    → is_success peer.device_add ≡ true
    → peer.ida_get hd.device_ids ≡ took d
    → d < 256
    → (hd' : Host) × (process_hotplug peer h hd ≡ some hd')
      × AddedOrNot
          (plugged h d)
          hd.interfaces
          d
          hd.device_ids
          (not (is_ignored peer h hd) && is_up peer)
          hd'
      × Kept hd hd'
process_hotplug-AddedOrNot peer h hd ap_id d endo added got small =
    elim (Bool-cases (is_ignored peer h hd)) [
      | inl y ↦ (
        hd,
        process_hotplug_ignored peer h hd ap_id d endo added y,
        rw y (refl, refl),
        (refl, refl, refl),
      )
      | inr n ↦
          let started : Host = record hd {
            interfaces = plugged h device_id_bad ∷ hd.interfaces;
            device_ids = d ∷ hd.device_ids;
          } in
          let (a, k) =
            bring_up_lem peer ap_id (plugged h device_id_bad) hd.interfaces d hd.device_ids started
              refl refl in
          (
            bring_up peer ap_id h.intf_id d started,
            process_hotplug_new peer h hd ap_id d endo added n got small,
            rw n a,
            k,
          )
    ]
