-- ===== src/Svc/Order.antt =====
-- The order of the SVC's requests, which gb_svc_request_recv enforces.
use greybus.Base.{
  ℕ, ◌≡◌, refl, inl, inr, Bool, true, false, Option, none, some, List, [], ◌∷◌, ◌==◌, ltb, not,
  if◌then◌else◌, arith, is_some, Bool-cases, Option-cases, ap,
}
use mathlib.Core.Option
use greybus.Errno.{Errno, success, einval, is_success}
use greybus.Svc.{
  SvcState, protocol_version, svc_hello, Peer, Host, type_version, type_hello, type_hotplug,
  type_hot_unplug, type_reset, blank, find, update, read_hotplug, device_id_ap, interface_create,
  put_back, version_request, ap_interface_create, hello, hotplug_recv, hot_unplug_recv, reset_recv,
  is_expected, advance, request_recv,
}

-- What holds of a result, unless the call faults.
abbrev pub Holds : {A : Type 0} → (A → Type 0) → Option A → Type 0
Holds P none = Unit
Holds P (some a) = P a

pub Holds-map :
    {A B : Type 0} (P : A → Type 0) (Q : B → Type 0) (f : A → B) (o : Option A)
    → Holds P o
    → ((a : A) → P a → Q (f a))
    → Holds Q (Option.map f o)
Holds-map P Q f none h k = tt
Holds-map P Q f (some a) h k = k a h

pub Holds-mono :
    {A : Type 0} (P Q : A → Type 0) (o : Option A) → Holds P o → ((a : A) → P a → Q a) → Holds Q o
Holds-mono P Q none h k = tt
Holds-mono P Q (some a) h k = k a h

abbrev pub is_hello : SvcState → Bool
is_hello svc_hello = true
is_hello s = false

-- The state after a request of a type with a result.
abbrev pub next : ℕ → Errno → SvcState → SvcState
next type ret state =
    if not (is_success ret)
    then state
    else if type == type_version
    then protocol_version
    else if type == type_hello
    then svc_hello
    else state

-- The parts of a host device that a module fills.
abbrev pub SameParts : Host → Host → Type 0
SameParts hd hd' =
    (hd'.endo ≡ hd.endo)
    × (hd'.interfaces ≡ hd.interfaces)
    × (hd'.device_ids ≡ hd.device_ids)
    × (hd'.pending ≡ hd.pending)

pub version_request_lem :
    (peer : Peer) (payload : List ℕ) (hd : Host)
    → Holds
        (λ (ret, hd'). (hd'.state ≡ hd.state) × SameParts hd hd')
        (version_request peer payload hd)
unfolding version_request
version_request_lem peer [] hd = tt
version_request_lem peer (a ∷ []) hd = elim (Bool-cases (ltb 0 a)) [
  | inl y ↦ rw y (refl, (refl, refl, refl, refl))
  | inr n ↦ rw n tt
]
version_request_lem peer (a ∷ b ∷ rest) hd = elim (Bool-cases (ltb 0 a)) [
  | inl y ↦ rw y (refl, (refl, refl, refl, refl))
  | inr n ↦ rw n (elim (Bool-cases peer.has_memory) [
    | inl y ↦ rw y (refl, (refl, refl, refl, refl))
    | inr n ↦ rw n (refl, (refl, refl, refl, refl))
  ])
]

-- An interface that is created is blank, in front of the others.
abbrev pub IsNew : ℕ → Host → Option Host → Type 0
IsNew id hd = Holds (λ (hd' : Host). hd' ≡ record hd { interfaces = blank id ∷ hd.interfaces })

pub interface_create-IsNew :
    (peer : Peer) (id : ℕ) (hd : Host) → Holds (IsNew id hd) (interface_create peer id hd)
unfolding interface_create
interface_create-IsNew peer id hd = elim (Bool-cases (is_some (find id hd.interfaces))) [
  | inl y ↦ rw y tt
  | inr n ↦ rw n (created hd.endo)
]
  where
    created :
        (o : Option ℕ)
        → Holds (IsNew id hd) (elim o [
          | none ↦ none
          | some ap_id ↦
              if not (peer.has_module id)
              then some none
              else if not peer.has_memory
              then some none
              else if not (is_success peer.device_add)
              then none
              else some (some (record hd { interfaces = blank id ∷ hd.interfaces }))
        ])
    created none = tt
    created (some ap_id) = elim (Bool-cases (peer.has_module id)) [
      | inr n ↦ rw n tt
      | inl y ↦ rw y (elim (Bool-cases peer.has_memory) [
        | inr n ↦ rw n tt
        | inl y ↦
            rw y (elim (Bool-cases (is_success peer.device_add)) [
              | inr n ↦ rw n tt
              | inl y ↦ rw y refl
            ])
      ])
    ]

ap_interface_create-state :
    (peer : Peer) (id : ℕ) (hd : Host)
    → Holds
        (λ (ret, hd'). (hd'.state ≡ hd.state) × (ret ≡ success))
        (ap_interface_create peer id hd)
unfolding ap_interface_create
ap_interface_create-state peer id hd =
    look (interface_create peer id hd) (interface_create-IsNew peer id hd)
  where
    look :
        (o : Option (Option Host))
        → Holds (IsNew id hd) o
        → Holds
            (λ ((ret, hd') : Errno × Host). (hd'.state ≡ hd.state) × (ret ≡ success))
            (elim o [
              | none ↦ none
              | some none ↦ some (success, record hd { endo = none })
              | some (some hd1) ↦ some (
                success,
                record hd1 {
                  interfaces =
                      update id (λ i. record i { device_id = device_id_ap }) hd1.interfaces;
                  is_initial = false;
                },
              )
            ])
    look none h = tt
    look (some none) h = (refl, refl)
    look (some (some hd1)) h = (ap (λ h. h.state) h, refl)

pub hello_lem :
    (peer : Peer) (payload : List ℕ) (hd : Host)
    → Holds
        (λ (ret, hd'). (hd'.state ≡ hd.state) × (is_success ret ≡ false → hd' ≡ hd))
        (hello peer payload hd)
unfolding hello
hello_lem peer [] hd = (refl, λ n. refl)
hello_lem peer (a ∷ []) hd = (refl, λ n. refl)
hello_lem peer (a ∷ b ∷ []) hd = (refl, λ n. refl)
hello_lem peer (a ∷ b ∷ c ∷ rest) hd = elim (Bool-cases (is_success peer.endo_setup)) [
  | inr n ↦ rw n (refl, λ n. refl)
  | inl y ↦ rw y (
      Holds-mono _ _ (ap_interface_create peer c (record hd { endo = some c }))
        (ap_interface_create-state peer c (record hd { endo = some c }))
        (λ (ret, hd') (s, e). (s, λ n. absurd (ground arith))))
]

hotplug_recv-state :
    (peer : Peer) (payload : List ℕ) (hd : Host) → (hotplug_recv peer payload hd).1.state ≡ hd.state
unfolding hotplug_recv
hotplug_recv-state peer payload hd = elim (Option-cases (read_hotplug payload)) [
  | inl e ↦ rw (e, hotplug_recv) refl
  | inr (h, e) ↦
      rw (e, hotplug_recv)
        (elim (Bool-cases peer.has_memory) [ inl y ↦ rw y refl | inr n ↦ rw n refl ])
]

hot_unplug_recv-state :
    (payload : List ℕ) (hd : Host) → (hot_unplug_recv payload hd).1.state ≡ hd.state
unfolding hot_unplug_recv put_back
hot_unplug_recv-state [] hd = refl
hot_unplug_recv-state (id ∷ rest) hd = elim (Option-cases (find id hd.interfaces)) [
  | inl e ↦ rw (e, hot_unplug_recv) refl
  | inr (i, e) ↦ rw (e, hot_unplug_recv) refl
]

reset_recv-state : (payload : List ℕ) (hd : Host) → (reset_recv payload hd).1.state ≡ hd.state
unfolding reset_recv
reset_recv-state [] hd = refl
reset_recv-state (id ∷ rest) hd = refl

advance-state :
    (s : SvcState) (ret : Errno) (hd hd' : Host)
    → hd'.state ≡ hd.state
    → (advance s (ret, hd')).1.state ≡ (if not (is_success ret) then hd.state else s)
unfolding advance
advance-state s ret hd hd' e = elim (Bool-cases (is_success ret)) [
  | inl y ↦ rw y refl
  | inr n ↦ rw n e
]

pub request_recv-next :
    (peer : Peer) (type : ℕ) (payload : List ℕ) (hd : Host)
    → Holds
        (λ (ret, hd').
          (hd'.state ≡ next type ret hd.state)
          × (is_expected type hd.state ≡ false → (ret ≡ einval) × (hd' ≡ hd)))
        (request_recv peer type payload hd)
unfolding request_recv advance
request_recv-next peer type payload hd = elim (Bool-cases (is_expected type hd.state)) [
  | inr n ↦ rw n (refl, λ n. (refl, refl))
  | inl expected ↦ rw expected (elim (Bool-cases (type == type_version)) [
    | inl y ↦ rw y (
        Holds-map _ _ (advance protocol_version) (version_request peer payload hd)
          (version_request_lem peer payload hd)
          λ (ret, hd') (e, k).
            (advance-state protocol_version ret hd hd' e, λ n. absurd (ground arith)))
    | inr a ↦ rw a (elim (Bool-cases (type == type_hello)) [
      | inl y ↦ rw y (
          Holds-map _ _ (advance svc_hello) (hello peer payload hd) (hello_lem peer payload hd)
            λ (ret, hd') (e, k). (advance-state svc_hello ret hd hd' e, λ n. absurd (ground arith)))
      | inr b ↦ rw b (elim (Bool-cases (type == type_hotplug)) [
        | inl y ↦ rw y (stays _ (hotplug_recv-state peer payload hd))
        | inr c ↦ rw c (elim (Bool-cases (type == type_hot_unplug)) [
          | inl y ↦ rw y (stays _ (hot_unplug_recv-state payload hd))
          | inr d ↦ rw d (elim (Bool-cases (type == type_reset)) [
            | inl y ↦ rw y (stays _ (reset_recv-state payload hd))
            | inr f ↦ rw f (stays (einval, hd) refl)
          ])
        ])
      ])
    ])
  ])
]
  where
    stays :
        (r : Errno × Host)
        → r.1.state ≡ hd.state
        → (r.1.state ≡ (if not (is_success r.0) then hd.state else hd.state))
          × (true ≡ false → (r.0 ≡ einval) × (r.1 ≡ hd))
    stays r e = elim (Bool-cases (is_success r.0)) [
      | inl y ↦ rw y (e, λ n. absurd (ground arith))
      | inr n ↦ rw n (e, λ n. absurd (ground arith))
    ]
