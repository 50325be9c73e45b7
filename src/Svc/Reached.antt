-- ===== src/Svc/Reached.antt =====
-- Hotplugs and requests in any order keep the map of device ids and the interfaces in agreement.
use greybus.Base.{
  ℕ, ◌≤◌, ◌<◌, ◌≡◌, refl, ◌⊎◌, inl, inr, Bool, true, false, none, some, List, [], ◌∷◌, ◌==◌, arith,
  All, has, Distinct, is_some, Bool-cases, Option-cases, ◌∙◌, ap, sym, subst,
}
use greybus.Errno.{Errno, is_success}
use greybus.Svc.{
  SvcState, protocol_version, svc_hello, Hotplug, took, Peer, Host, device_id_ap, blank, find,
  update, interface_create, process_hotplug, version_request, ap_interface_create, hello,
  hotplug_recv, reset_recv, request_recv, advance, read_hotplug, is_expected, type_version,
  type_hello, type_hotplug, type_hot_unplug, type_reset,
}
use greybus.Svc.Order.{
  Holds, Holds-map, Holds-mono, version_request_lem, interface_create-IsNew, IsNew,
}
use greybus.Svc.Devices.{AddedOrNot, plugged, process_hotplug-AddedOrNot}
use greybus.Svc.Quiet.{
  request, work, Reach, start, later, IsEmpty, IsQuiet, Reach-IsQuiet, expected_hello,
}
use greybus.Svc.Allocated.{
  IsAllocated, interface_ids, module_ids, has-find-none, same-IsAllocated, empty-IsAllocated,
  one-IsAllocated, hot_unplug_recv-IsAllocated,
}

-- ida_simple_get gives an id that is not in use and fits into a byte, and the interface's device can
-- be added.
pub record IsServed (peer : Peer) (hd : Host) : Type 0 where
  pub added : is_success peer.device_add ≡ true
  pub device_id : ℕ
  pub got : peer.ida_get hd.device_ids ≡ took device_id
  pub lowest : 2 ≤ device_id
  pub small : device_id < 256
  pub unused : has device_id hd.device_ids ≡ false

plugged-IsAllocated :
    (h : Hotplug) (d : ℕ) (hd hd' : Host) (b : Bool)
    → (b ≡ true → has h.intf_id (interface_ids hd.interfaces) ≡ false)
    → 2 ≤ d
    → has d hd.device_ids ≡ false
    → AddedOrNot (plugged h d) hd.interfaces d hd.device_ids b hd'
    → IsAllocated hd
    → IsAllocated hd'
plugged-IsAllocated h d hd hd' false new lowest unused (e, f) v = same-IsAllocated hd hd' e f v
plugged-IsAllocated h d hd hd' true new lowest unused (e, f) v =
    let not_ap : (d == device_id_ap) ≡ false = ground arith in
    let kept : module_ids (plugged h d ∷ hd.interfaces) ≡ d ∷ module_ids hd.interfaces =
      rw not_ap refl in
    record {
      ids = f ∙ ap (◌∷◌ d) v.ids ∙ sym kept ∙ ap module_ids (sym e);
      distinct = subst Distinct (sym f) (unused, v.distinct);
      modules = subst (All (λ d. 2 ≤ d)) (sym f) (lowest, v.modules);
      interfaces = subst (λ is. Distinct (interface_ids is)) (sym e) (new refl, v.interfaces);
    }

interface_create_without :
    (peer : Peer) (id : ℕ) (hd : Host)
    → hd.endo ≡ none
    → (interface_create peer id hd ≡ none) ⊎ (interface_create peer id hd ≡ some none)
unfolding interface_create
interface_create_without peer id hd e = elim (Bool-cases (is_some (find id hd.interfaces))) [
  | inl y ↦ inr (ground arith)
  | inr n ↦ inl (ground (arith, e))
]

process_hotplug_without :
    (peer : Peer) (h : Hotplug) (hd : Host)
    → hd.endo ≡ none
    → Holds (λ (hd' : Host). hd' ≡ hd) (process_hotplug peer h hd)
unfolding process_hotplug
process_hotplug_without peer h hd e = elim (interface_create_without peer h.intf_id hd e) [
  | inl f ↦ rw (f, process_hotplug) tt
  | inr f ↦ rw (f, process_hotplug) refl
]

process_hotplug-IsAllocated :
    (peer : Peer) (h : Hotplug) (hd : Host)
    → IsServed peer hd
    → IsAllocated hd
    → Holds IsAllocated (process_hotplug peer h hd)
process_hotplug-IsAllocated peer h hd s v = elim (Option-cases hd.endo) [
  | inl e ↦
      Holds-mono _ _ (process_hotplug peer h hd) (process_hotplug_without peer h hd e)
        (λ hd' same. subst IsAllocated (sym same) v)
  | inr (ap_id, e) ↦
      let (hd', f, a, k) =
        process_hotplug-AddedOrNot peer h hd ap_id s.device_id e s.added s.got s.small in
      rw f (
        plugged-IsAllocated h s.device_id hd hd' _
          (λ y. elim (Option-cases (find h.intf_id hd.interfaces)) [
            | inl m ↦ has-find-none h.intf_id hd.interfaces m
            | inr (i, m) ↦ absurd (ground arith)
          ])
          s.lowest s.unused a v)
]

-- A hello on a host device that has nothing leaves at most the AP's interface.
ap_interface_create-IsAllocated :
    (peer : Peer) (id : ℕ) (hd : Host)
    → hd.interfaces ≡ []
    → hd.device_ids ≡ []
    → Holds (λ ((ret, hd') : Errno × Host). IsAllocated hd') (ap_interface_create peer id hd)
unfolding ap_interface_create update
ap_interface_create-IsAllocated peer id hd e f = elim (Option-cases (interface_create peer id hd)) [
  | inl g ↦ rw (g, ap_interface_create) tt
  | inr (none, g) ↦ rw (g, ap_interface_create) (empty-IsAllocated _ e f)
  | inr (some hd1, g) ↦
      let same : hd1 ≡ record hd { interfaces = blank id ∷ hd.interfaces } =
        subst (Holds (IsNew id hd)) g (interface_create-IsNew peer id hd) in
      let is : update id (λ i. record i { device_id = device_id_ap }) hd1.interfaces
          ≡ record (blank id) { device_id = device_id_ap } ∷ [] =
        ap (λ h. update id (λ i. record i { device_id = device_id_ap }) h.interfaces) same
        ∙ ground (arith, e) in
      rw (g, ap_interface_create) (one-IsAllocated id _ is (ap (λ h. h.device_ids) same ∙ f))
]

hello-IsAllocated :
    (peer : Peer) (payload : List ℕ) (hd : Host)
    → hd.interfaces ≡ []
    → hd.device_ids ≡ []
    → Holds (λ ((ret, hd') : Errno × Host). IsAllocated hd') (hello peer payload hd)
unfolding hello
hello-IsAllocated peer [] hd e f = empty-IsAllocated hd e f
hello-IsAllocated peer (a ∷ []) hd e f = empty-IsAllocated hd e f
hello-IsAllocated peer (a ∷ b ∷ []) hd e f = empty-IsAllocated hd e f
hello-IsAllocated peer (a ∷ b ∷ id ∷ rest) hd e f = elim (Bool-cases (is_success peer.endo_setup)) [
  | inr n ↦ rw n (empty-IsAllocated hd e f)
  | inl y ↦ rw y (ap_interface_create-IsAllocated peer id (record hd { endo = some id }) e f)
]

hotplug_recv-IsAllocated :
    (peer : Peer) (payload : List ℕ) (hd : Host)
    → IsAllocated hd
    → IsAllocated (hotplug_recv peer payload hd).1
unfolding hotplug_recv
hotplug_recv-IsAllocated peer payload hd v = elim (Option-cases (read_hotplug payload)) [
  | inl e ↦ rw (e, hotplug_recv) v
  | inr (h, e) ↦
      rw (e, hotplug_recv)
        (elim (Bool-cases peer.has_memory) [
          | inl y ↦ rw y (same-IsAllocated hd _ refl refl v)
          | inr n ↦ rw n v
        ])
]

advance-IsAllocated :
    (s : SvcState) (r : Errno × Host) → IsAllocated r.1 → IsAllocated (advance s r).1
unfolding advance
advance-IsAllocated s (ret, hd) v = elim (Bool-cases (is_success ret)) [
  | inl y ↦ rw y (same-IsAllocated hd _ refl refl v)
  | inr n ↦ rw n v
]

reset_recv_lem : (payload : List ℕ) (hd : Host) → (reset_recv payload hd).1 ≡ hd
unfolding reset_recv
reset_recv_lem [] hd = refl
reset_recv_lem (id ∷ rest) hd = refl

request_recv-IsAllocated :
    (peer : Peer) (type : ℕ) (payload : List ℕ) (hd : Host)
    → IsQuiet hd
    → IsAllocated hd
    → Holds (λ ((ret, hd') : Errno × Host). IsAllocated hd') (request_recv peer type payload hd)
unfolding request_recv
request_recv-IsAllocated peer type payload hd q v = elim (Bool-cases (is_expected type hd.state)) [
  | inr n ↦ rw n v
  | inl expected ↦ rw expected (elim (Bool-cases (type == type_version)) [
    | inl y ↦ rw y (
        Holds-map _ _ (advance protocol_version) (version_request peer payload hd)
          (version_request_lem peer payload hd)
          λ (ret, hd') (e, k).
            advance-IsAllocated protocol_version (ret, hd') (same-IsAllocated hd hd' k.1 k.2 v))
    | inr a ↦ rw a (elim (Bool-cases (type == type_hello)) [
      | inl y ↦ rw y (
          let (e, f, g, h) = q (expected_hello type hd.state expected y) in
          Holds-map _ _ (advance svc_hello) (hello peer payload hd)
            (hello-IsAllocated peer payload hd f g) (λ r w. advance-IsAllocated svc_hello r w))
      | inr b ↦ rw b (elim (Bool-cases (type == type_hotplug)) [
        | inl y ↦ rw y (hotplug_recv-IsAllocated peer payload hd v)
        | inr c ↦ rw c (elim (Bool-cases (type == type_hot_unplug)) [
          | inl y ↦ rw y (hot_unplug_recv-IsAllocated payload hd v)
          | inr d ↦ rw d (elim (Bool-cases (type == type_reset)) [
            | inl y ↦ rw y (rw (reset_recv_lem payload hd) v)
            | inr f ↦ rw f v
          ])
        ])
      ])
    ])
  ])
]

-- In any order of requests and hotplugs in which each step is served: the map holds the device ids of
-- the modules' interfaces and no other, each once, and no two interfaces have the same id.
pub Reach-IsAllocated : (first hd : Host) → IsEmpty first → Reach IsServed first hd → IsAllocated hd
Reach-IsAllocated first hd (a, b, c, d) start = empty-IsAllocated first b c
Reach-IsAllocated first hd e (later {hd = hd1} r (request peer type payload ret p f)) =
    subst (Holds (λ ((ret, hd') : Errno × Host). IsAllocated hd')) f (
      request_recv-IsAllocated peer type payload hd1 (Reach-IsQuiet IsServed first hd1 e r)
        (Reach-IsAllocated first hd1 e r))
Reach-IsAllocated first hd e (later {hd = hd1} r (work peer h rest p there f)) =
    subst (Holds IsAllocated) f (
      process_hotplug-IsAllocated peer h (record hd1 { pending = rest })
        (record {
          added = p.added;
          device_id = p.device_id;
          got = p.got;
          lowest = p.lowest;
          small = p.small;
          unused = p.unused;
        })
        (same-IsAllocated hd1 _ refl refl (Reach-IsAllocated first hd1 e r)))
