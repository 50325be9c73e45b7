-- ===== src/Svc/Quiet.antt =====
-- Requests and hotplugs in any order: before the SVC said hello there is nothing of a module.
use greybus.Base.{
  ℕ, ◌%◌, ◌≡◌, refl, inl, inr, true, false, none, some, List, [], ◌∷◌, ◌==◌, arith, Bool-cases,
  Option-cases, ◌∙◌, ap, sym, subst,
}
use greybus.Errno.{Errno, is_success}
use greybus.Svc.{
  SvcState, reset, protocol_version, svc_hello, Hotplug, IdaGet, took, failed, Peer, Host,
  type_version, type_hello, interface_create, sync, put_back, bring_up, take_device_id,
  process_hotplug, interface_init, version_request, hello, is_expected, advance, request_recv,
}
use greybus.Svc.Order.{
  Holds, Holds-map, Holds-mono, is_hello, SameParts, version_request_lem, hello_lem,
  interface_create-IsNew, IsNew, request_recv-next,
}

-- A request is received, or the work queue runs the next hotplug, as one step.
pub data Step (P : Peer → Host → Type 0) : Host → Host → Type 0 where
  request :
      {hd hd' : Host} (peer : Peer) (type : ℕ) (payload : List ℕ) (ret : Errno)
      → P peer hd
      → request_recv peer type payload hd ≡ some (ret, hd')
      → Step P hd hd'
  work :
      {hd hd' : Host} (peer : Peer) (h : Hotplug) (rest : List Hotplug)
      → P peer hd
      → hd.pending ≡ h ∷ rest
      → process_hotplug peer h (record hd { pending = rest }) ≡ some hd'
      → Step P hd hd'

pub data Reach (P : Peer → Host → Type 0) (first : Host) : Host → Type 0 where
  start : Reach P first first
  later : {hd hd' : Host} → Reach P first hd → Step P hd hd' → Reach P first hd'

-- Nothing of a module is there.
abbrev pub IsEmpty : Host → Type 0
IsEmpty hd = (hd.endo ≡ none) × (hd.interfaces ≡ []) × (hd.device_ids ≡ []) × (hd.pending ≡ [])

abbrev pub IsQuiet : Host → Type 0
IsQuiet hd = is_hello hd.state ≡ false → IsEmpty hd

expected_version :
    (type : ℕ) (s : SvcState)
    → is_expected type s ≡ true
    → (type == type_version) ≡ true
    → is_hello s ≡ false
unfolding is_expected
expected_version type reset e y = refl
expected_version type protocol_version e y = refl
expected_version type svc_hello e y = absurd (ground arith)

pub expected_hello :
    (type : ℕ) (s : SvcState)
    → is_expected type s ≡ true
    → (type == type_hello) ≡ true
    → is_hello s ≡ false
unfolding is_expected
expected_hello type reset e y = refl
expected_hello type protocol_version e y = refl
expected_hello type svc_hello e y = absurd (ground arith)

expected_other :
    (type : ℕ) (s : SvcState)
    → is_expected type s ≡ true
    → (type == type_version) ≡ false
    → (type == type_hello) ≡ false
    → is_hello s ≡ true
unfolding is_expected
expected_other type reset e a b = absurd (ground arith)
expected_other type protocol_version e a b = absurd (ground arith)
expected_other type svc_hello e a b = refl

advance-SameParts :
    (s : SvcState) (ret : Errno) (hd hd' : Host)
    → SameParts hd hd'
    → SameParts hd (advance s (ret, hd')).1
unfolding advance
advance-SameParts s ret hd hd' k = elim (Bool-cases (is_success ret)) [
  | inl y ↦ rw y k
  | inr n ↦ rw n k
]

hello-IsQuiet :
    (ret : Errno) (hd hd' : Host)
    → IsQuiet hd
    → (is_success ret ≡ false → hd' ≡ hd)
    → IsQuiet (advance svc_hello (ret, hd')).1
unfolding advance
hello-IsQuiet ret hd hd' q k = elim (Bool-cases (is_success ret)) [
  | inl y ↦ rw y (λ n. absurd (ground arith))
  | inr n ↦ rw (n, k n) q
]

pub request_recv-IsQuiet :
    (peer : Peer) (type : ℕ) (payload : List ℕ) (hd : Host)
    → IsQuiet hd
    → Holds (λ (ret, hd'). IsQuiet hd') (request_recv peer type payload hd)
unfolding request_recv advance
request_recv-IsQuiet peer type payload hd q = elim (Bool-cases (is_expected type hd.state)) [
  | inr n ↦ rw n q
  | inl expected ↦ elim (Bool-cases (type == type_version)) [
    | inl y ↦
        rw (expected, y)
          (Holds-map _ _ (advance protocol_version) (version_request peer payload hd)
            (version_request_lem peer payload hd)
            λ (ret, hd') (e, k) n.
              let (a, b, c, d) = advance-SameParts protocol_version ret hd hd' k in
              let (v, w, x, z) = q (expected_version type hd.state expected y) in
              (a ∙ v, b ∙ w, c ∙ x, d ∙ z))
    | inr a ↦ elim (Bool-cases (type == type_hello)) [
      | inl y ↦
          rw (expected, a, y)
            (Holds-map _ _ (advance svc_hello) (hello peer payload hd) (hello_lem peer payload hd)
              λ (ret, hd') (e, k). hello-IsQuiet ret hd hd' q k)
      | inr b ↦
          Holds-mono _ _ (request_recv peer type payload hd)
            (request_recv-next peer type payload hd)
            λ (ret, hd') (e, k) n.
              let on : is_hello hd.state ≡ true = expected_other type hd.state expected a b in
              absurd (ground (arith, e, on))
    ]
  ]
]

bring_up-state :
    (peer : Peer) (ap_id intf_id d : ℕ) (hd : Host)
    → (bring_up peer ap_id intf_id d hd).state ≡ hd.state
unfolding bring_up sync put_back
bring_up-state peer ap_id intf_id d hd = elim (Bool-cases (is_success peer.device_id_set)) [
  | inr n ↦ rw n refl
  | inl a ↦ rw a (elim (Bool-cases (is_success peer.route_to)) [
    | inr n ↦ rw n refl
    | inl b ↦ rw b (elim (Bool-cases (is_success peer.route_back)) [
      | inr n ↦ rw n refl
      | inl c ↦ rw c (elim (Bool-cases (is_success (interface_init peer))) [
        | inr n ↦ rw n refl
        | inl z ↦ rw z refl
      ])
    ])
  ])
]

take_device_id-state : (peer : Peer) (hd : Host) → (take_device_id peer hd).1.state ≡ hd.state
unfolding take_device_id
take_device_id-state peer hd = look (peer.ida_get hd.device_ids)
  where
    look :
        (g : IdaGet)
        → let left : ℕ × Host = elim g [
          | took d ↦ (d % 256, record hd { device_ids = d ∷ hd.device_ids })
          | failed low_byte ↦ (low_byte, hd)
        ] in
          left.1.state ≡ hd.state
    look (took d) = refl
    look (failed b) = refl

process_hotplug-state :
    (peer : Peer) (h : Hotplug) (hd : Host)
    → Holds (λ (hd' : Host). hd'.state ≡ hd.state) (process_hotplug peer h hd)
unfolding process_hotplug
process_hotplug-state peer h hd = elim (Option-cases (interface_create peer h.intf_id hd)) [
  | inl e ↦ rw (e, process_hotplug) tt
  | inr (none, e) ↦ rw (e, process_hotplug) refl
  | inr (some hd1, e) ↦
      let s : hd1.state ≡ hd.state =
        ap (λ h. h.state)
          (subst (Holds (IsNew h.intf_id hd)) e (interface_create-IsNew peer h.intf_id hd)) in
      elim (Option-cases hd1.endo) [
        | inl f ↦ rw (e, process_hotplug) (rw (f, process_hotplug) tt)
        | inr (ap_id, f) ↦
            rw (e, process_hotplug)
              (rw (f, process_hotplug)
                (bring_up-state peer ap_id h.intf_id _ _ ∙ (take_device_id-state peer _ ∙ s)))
      ]
]

-- In any order of requests and hotplugs, whatever the peers answer: before the SVC's hello was
-- accepted there are no Endo, no interface, no device id and no queued hotplug.
pub Reach-IsQuiet :
    (P : Peer → Host → Type 0) (first hd : Host) → IsEmpty first → Reach P first hd → IsQuiet hd
Reach-IsQuiet P first hd e start = λ n. e
Reach-IsQuiet P first hd e (later {hd = hd1} r (request peer type payload ret p f)) =
    subst (Holds (λ ((ret, hd') : Errno × Host). IsQuiet hd')) f
      (request_recv-IsQuiet peer type payload hd1 (Reach-IsQuiet P first hd1 e r))
Reach-IsQuiet P first hd e (later {hd = hd1} r (work peer h rest p there f)) = λ n.
    let s : hd.state ≡ hd1.state =
      subst (Holds _) f (process_hotplug-state peer h (record hd1 { pending = rest })) in
    let (a, b, c, d) = Reach-IsQuiet P first hd1 e r (ap is_hello (sym s) ∙ n) in
    absurd (ground (arith, there, d))
