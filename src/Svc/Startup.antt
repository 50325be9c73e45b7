-- ===== src/Svc/Startup.antt =====
-- From a reset to a module that is up, and what is lost if the AP's interface cannot be created.
use greybus.Base.{
  ℕ, ◌≤◌, ◌<◌, ◌≡◌, refl, inl, inr, true, false, none, some, List, [], ◌∷◌, ◌++◌, ◌==◌, not, ◌&&◌,
  arith, Bool-cases, ◌∙◌, ap, subst, has,
}
use greybus.Errno.{success, is_success}
use greybus.Svc.{
  reset, protocol_version, svc_hello, Hotplug, took, Peer, Host, device_id_ap, version_major,
  version_minor, blank, find, update, interface_create, process_hotplug, version_request,
  ap_interface_create, hello, read_hotplug, hotplug_recv, is_expected, advance, request_recv,
  type_version, type_hello, type_hotplug,
}
use greybus.Svc.Devices.{AddedOrNot, plugged, is_up, is_ignored, process_hotplug-AddedOrNot}
use greybus.Svc.Quiet.{request, work, Reach, start, later, IsEmpty}
use greybus.Svc.Reached.{IsServed}

-- Everything that is asked of the kernel and of the other end succeeds.
pub record IsGood (peer : Peer) : Type 0 where
  pub memory : peer.has_memory ≡ true
  pub setup : is_success peer.endo_setup ≡ true
  pub modules : (id : ℕ) → peer.has_module id ≡ true
  pub added : is_success peer.device_add ≡ true
  pub up : is_up peer ≡ true

ap_created :
    (peer : Peer) (good : IsGood peer) (hd : Host) (id : ℕ)
    → hd.interfaces ≡ []
    → hd.endo ≡ some id
    → ap_interface_create peer id hd
      ≡ some (
        success,
        record hd {
          interfaces = record (blank id) { device_id = device_id_ap } ∷ [];
          is_initial = false;
        },
      )
unfolding ap_interface_create interface_create find update
ap_created peer good hd id e f = ground (arith, e, f, good.memory, good.modules id, good.added)

module _ (peer : Peer) (good : IsGood peer) (hd : Host) where
  version_answered :
      (minor : ℕ)
      → hd.state ≡ reset
      → request_recv peer type_version (0 ∷ minor ∷ []) hd
        ≡ some (
          success,
          record hd {
            state = protocol_version;
            module_major = 0;
            module_minor = minor;
            response = version_major ∷ version_minor ∷ [];
          },
        )
  unfolding request_recv is_expected version_request advance
  version_answered minor e = ground (arith, e, good.memory)

  hello_answered :
      (low high id : ℕ)
      → hd.state ≡ protocol_version
      → hd.interfaces ≡ []
      → request_recv peer type_hello (low ∷ high ∷ id ∷ []) hd
        ≡ some (
          success,
          record hd {
            state = svc_hello;
            endo = some id;
            interfaces = record (blank id) { device_id = device_id_ap } ∷ [];
            is_initial = false;
          },
        )
  unfolding request_recv is_expected hello advance
  hello_answered low high id e f =
      ground
        (arith, e, f, good.setup, ap_created peer good (record hd { endo = some id }) id f refl)

  hotplug_answered :
      (payload : List ℕ) (h : Hotplug)
      → hd.state ≡ svc_hello
      → read_hotplug payload ≡ some h
      → request_recv peer type_hotplug payload hd
        ≡ some (success, record hd { pending = hd.pending ++ h ∷ [] })
  unfolding request_recv is_expected hotplug_recv
  hotplug_answered payload h e f = ground (arith, e, f, good.memory)

-- A start-up, step by step: the payloads of the version request, the hello and the hotplug, each of
-- which is received in the state that the one before it left and succeeds, and then the work on the
-- hotplug, the only one that waits. All steps together are a run of the SVC.
pub record CameUp (peer : Peer) (first : Host) (version hello hotplug : List ℕ) (id : ℕ)
    (h : Hotplug) (d : ℕ) : Type 0 where
  pub versioned : Host
  pub greeted : Host
  pub queued : Host
  pub last : Host
  pub version_accepted : request_recv peer type_version version first ≡ some (success, versioned)
  pub answered : versioned.response ≡ version_major ∷ version_minor ∷ []
  pub hello_accepted : request_recv peer type_hello hello versioned ≡ some (success, greeted)
  pub has_endo : greeted.endo ≡ some id
  pub has_ap : find id greeted.interfaces ≡ some (record (blank id) { device_id = device_id_ap })
  pub hotplug_accepted : request_recv peer type_hotplug hotplug greeted ≡ some (success, queued)
  pub waiting : queued.pending ≡ h ∷ []
  pub worked : process_hotplug peer h (record queued { pending = [] }) ≡ some last
  pub run : Reach IsServed first last
  pub found : find h.intf_id last.interfaces ≡ some (plugged h d)
  pub ids : last.device_ids ≡ d ∷ []
  pub idle : last.pending ≡ []

-- A module that is plugged in comes up. From a host device with nothing, a version request of major
-- number 0 and any minor number, a hello and the hotplug of an interface other than the AP's are each
-- accepted in the state that the one before left: the first is answered with the version of this
-- code, and the second makes the Endo and the AP's interface. The work on the hotplug then leads to a
-- state with that interface, its device id and the ids of the hotplug, if everything that is asked of
-- the kernel and of the other end succeeds and ida_simple_get gives a number from 2 to 255.
pub hotplug_up :
    (peer : Peer) (hd : Host) (minor low high id d : ℕ) (payload : List ℕ) (h : Hotplug)
    → IsGood peer
    → (hd.state ≡ reset) × IsEmpty hd
    → read_hotplug payload ≡ some h
    → (h.intf_id == id) ≡ false
    → peer.ida_get [] ≡ took d
    → 2 ≤ d
    → d < 256
    → CameUp peer hd (0 ∷ minor ∷ []) (low ∷ high ∷ id ∷ []) payload id h d
unfolding find
hotplug_up peer hd minor low high id d payload h good (off, none_yet) read other got lowest small =
    let (no_endo, no_interfaces, no_ids, no_pending) = none_yet in
    let served : (hd' : Host) → hd'.device_ids ≡ [] → IsServed peer hd' = λ hd' e. record {
      added = good.added;
      device_id = d;
      got = ap peer.ida_get e ∙ got;
      lowest = lowest;
      small = small;
      unused = ap (has d) e;
    } in
    let hd1 : Host = record hd {
      state = protocol_version;
      module_major = 0;
      module_minor = minor;
      response = version_major ∷ version_minor ∷ [];
    } in
    let hd2 : Host = record hd1 {
      state = svc_hello;
      endo = some id;
      interfaces = record (blank id) { device_id = device_id_ap } ∷ [];
      is_initial = false;
    } in
    let hd3 : Host = record hd2 { pending = hd2.pending ++ h ∷ [] } in
    let ready : is_ignored peer h (record hd3 { pending = [] }) ≡ false =
      ground (arith, good.memory, good.modules h.intf_id, other) in
    let (hd', done, added, kept) =
      process_hotplug-AddedOrNot peer h (record hd3 { pending = [] }) id d refl good.added
        (ap peer.ida_get no_ids ∙ got) small in
    let all : (not (is_ignored peer h (record hd3 { pending = [] })) && is_up peer) ≡ true =
      rw ready good.up in
    let (there, ids) : (hd'.interfaces ≡ plugged h d ∷ hd2.interfaces)
        × (hd'.device_ids ≡ d ∷ hd.device_ids) =
      subst (λ b. AddedOrNot (plugged h d) hd2.interfaces d hd.device_ids b hd') all added in
    let version = version_answered peer good hd minor off in
    let greeting = hello_answered peer good hd1 low high id refl no_interfaces in
    let plug = hotplug_answered peer good hd2 payload h refl read in
    let alone : hd3.pending ≡ h ∷ [] = ap (λ hs. hs ++ h ∷ []) no_pending in
    record {
      versioned = hd1;
      greeted = hd2;
      queued = hd3;
      last = hd';
      version_accepted = version;
      answered = refl;
      hello_accepted = greeting;
      has_endo = refl;
      has_ap = ground arith;
      hotplug_accepted = plug;
      waiting = alone;
      worked = done;
      run =
          later
            (later
              (later
                (later start
                  (request peer type_version (0 ∷ minor ∷ []) success (served hd no_ids) version))
                (request peer type_hello (low ∷ high ∷ id ∷ []) success (served hd1 no_ids)
                  greeting))
              (request peer type_hotplug payload success (served hd2 no_ids) plug))
            (work peer h [] (served hd3 no_ids) alone done);
      found = ap (find h.intf_id) there ∙ ground arith;
      ids = ids ∙ ap (◌∷◌ d) no_ids;
      idle = kept.2;
    }

-- A hello is accepted although the AP's interface cannot be created for want of memory: the result is
-- success, the Endo is gone, and the work on a hotplug of any interface that follows faults.
pub hello_without_interface :
    (peer later_peer : Peer) (hd : Host) (low high id : ℕ) (h : Hotplug)
    → hd.state ≡ protocol_version
    → hd.interfaces ≡ []
    → is_success peer.endo_setup ≡ true
    → peer.has_memory ≡ false
    → let left : Host = record hd { state = svc_hello; endo = none } in
      (request_recv peer type_hello (low ∷ high ∷ id ∷ []) hd ≡ some (success, left))
      × (process_hotplug later_peer h left ≡ none)
unfolding request_recv is_expected hello advance process_hotplug interface_create find
    ap_interface_create
hello_without_interface peer later_peer hd low high id h on none_yet setup no_memory = (
  elim (Bool-cases (peer.has_module id)) [
    | inl y ↦ ground (arith, on, none_yet, setup, no_memory)
    | inr n ↦ ground (arith, on, none_yet, setup, no_memory)
  ],
  ground (arith, none_yet),
)
