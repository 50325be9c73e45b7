-- ===== src/Connection/Host.antt =====
-- The connections of a host device, connection.c: creating one, and finding the one that data is for.
-- The ids are those of `cport_id_map`; `none` is a memory fault, the use of a null bundle.
use greybus.Base.{
  ℕ, ◌≡◌, refl, inl, inr, Bool, true, false, Option, none, some, List, [], ◌∷◌, ◌==◌, not, ◌&&◌,
  if◌then◌else◌, arith, map, has, erase, Distinct, Bool-cases, Option-cases, is_some, ap,
}
use greybus.Errno.{Errno, is_success}

-- The fields of a `struct gb_connection` that the searches use; the interface is that of the bundle.
pub record Port : Type 0 where
  pub intf : Option ℕ
  pub hd_cport_id : ℕ
  pub intf_cport_id : ℕ
  pub protocol_id : ℕ

pub record HostDevice : Type 0 where
  pub connections : List Port
  pub cport_ids : List ℕ

-- The kernel's answers to one call; ida_simple_get is given the ids in use and the range.
pub record Supply : Type 0 where
  pub ida_get : List ℕ → ℕ → ℕ → Option ℕ
  pub has_memory : Bool
  pub has_workqueue : Bool
  pub has_kfifo : Bool
  pub device_add : Errno

-- gb_connection_intf_find; it reads the bundle of every connection on its way.
unfoldable pub intf_find : ℕ → ℕ → List Port → Option (Option Port)
intf_find intf cport_id [] = some none
intf_find intf cport_id (c ∷ cs) =
    let rest = intf_find intf cport_id cs in
    elim c.intf [
      | none ↦ none
      | some i ↦ if (i == intf) && (c.intf_cport_id == cport_id) then some (some c) else rest
    ]

-- gb_connection_hd_find
unfoldable pub hd_find : ℕ → List Port → Option Port
hd_find cport_id [] = none
hd_find cport_id (c ∷ cs) = if c.hd_cport_id == cport_id then some c else hd_find cport_id cs

-- greybus_data_rcvd, where `recv` is gb_connection_recv on a connection.
unfoldable pub data_rcvd : {W : Type 0} → (Port → List ℕ → W → W) → HostDevice → ℕ → List ℕ → W → W
data_rcvd recv hd cport_id bytes w = elim (hd_find cport_id hd.connections) [
  | none ↦ w
  | some c ↦ recv c bytes w
]

-- gb_connection_create_range from ida_simple_get on, up to the request to the SVC.
unfoldable pub create_with : Supply → HostDevice → Port → Option (Option Port × HostDevice)
create_with supply hd c =
    let taken = record hd { cport_ids = c.hd_cport_id ∷ hd.cport_ids } in
    let err_remove_ida = record taken { cport_ids = erase c.hd_cport_id taken.cport_ids } in
    if not supply.has_memory
    then some (none, err_remove_ida)
    else if not supply.has_workqueue
    then some (none, err_remove_ida)
    else if not supply.has_kfifo
    then some (none, err_remove_ida)
    else if not (is_success supply.device_add)
    then some (none, err_remove_ida)
    else if not (c.hd_cport_id == 0) && not (is_some c.intf)
    then none
    else some (some c, record taken { connections = c ∷ taken.connections })

-- `bundle && gb_connection_intf_find(bundle->intf, cport_id)`
unfoldable pub is_duplicate : Option ℕ → ℕ → List Port → Option Bool
is_duplicate none cport_id cs = some false
is_duplicate (some intf) cport_id cs = elim (intf_find intf cport_id cs) [
  | none ↦ none
  | some found ↦ some (is_some found)
]

-- gb_connection_create_range, up to the request to the SVC and the binding of the protocol.
unfoldable pub create_range :
    Supply → HostDevice → Option ℕ → ℕ → ℕ → ℕ → ℕ → Option (Option Port × HostDevice)
create_range supply hd intf cport_id protocol_id ida_start ida_end =
    elim (is_duplicate intf cport_id hd.connections) [
      | none ↦ none
      | some duplicate ↦
          if duplicate
          then some (none, hd)
          else elim (supply.ida_get hd.cport_ids ida_start ida_end) [
            | none ↦ some (none, hd)
            | some hd_cport_id ↦ create_with supply hd (record {
              intf = intf;
              hd_cport_id = hd_cport_id;
              intf_cport_id = cport_id;
              protocol_id = protocol_id;
            })
          ]
    ]

abbrev pub port_ids : List Port → List ℕ
port_ids = map (λ (c : Port). c.hd_cport_id)

-- The map holds the ids of the connections and no other, each once.
pub record IsNumbered (hd : HostDevice) : Type 0 where
  pub ids : hd.cport_ids ≡ port_ids hd.connections
  pub distinct : Distinct hd.cport_ids

-- Nothing was created and the host device is as before, or the connection is found by its id, and
-- every other id finds what it found.
abbrev pub CreatedOrNot : HostDevice → Option Port → HostDevice → Type 0
CreatedOrNot hd none hd' = hd' ≡ hd
CreatedOrNot hd (some c) hd' =
    (hd_find c.hd_cport_id hd'.connections ≡ some c)
    × ((id : ℕ)
        → (c.hd_cport_id == id) ≡ false
        → hd_find id hd'.connections ≡ hd_find id hd.connections)

abbrev pub Left : HostDevice → Option (Option Port × HostDevice) → Type 0
Left hd none = Unit
Left hd (some (c, hd')) = IsNumbered hd' × CreatedOrNot hd c hd'

create_with-Left :
    (supply : Supply) (hd : HostDevice) (c : Port)
    → IsNumbered hd
    → has c.hd_cport_id hd.cport_ids ≡ false
    → Left hd (create_with supply hd c)
unfolding create_with hd_find
create_with-Left supply hd c v unused =
    let given_back : erase c.hd_cport_id (c.hd_cport_id ∷ hd.cport_ids) ≡ hd.cport_ids =
      ground arith in
    let undone : IsNumbered
          (record hd { cport_ids = erase c.hd_cport_id (c.hd_cport_id ∷ hd.cport_ids) })
        × (record hd { cport_ids = erase c.hd_cport_id (c.hd_cport_id ∷ hd.cport_ids) } ≡ hd) =
      rw given_back (record { ids = v.ids; distinct = v.distinct }, refl) in
    elim (Bool-cases supply.has_memory) [
      | inr n ↦ rw n undone
      | inl y ↦ rw y (elim (Bool-cases supply.has_workqueue) [
        | inr n ↦ rw n undone
        | inl y ↦ rw y (elim (Bool-cases supply.has_kfifo) [
          | inr n ↦ rw n undone
          | inl y ↦ rw y (elim (Bool-cases (is_success supply.device_add)) [
            | inr n ↦ rw n undone
            | inl y ↦ rw y (elim (Bool-cases (not (c.hd_cport_id == 0) && not (is_some c.intf))) [
              | inl z ↦ rw z tt
              | inr z ↦ rw z (
                record { ids = ap (◌∷◌ c.hd_cport_id) v.ids; distinct = (unused, v.distinct) },
                (ground arith, λ id other. rw other refl),
              )
            ])
          ])
        ])
      ])
    ]

-- Creating a connection on a host device whose ids are those of its connections, with an id that
-- ida_simple_get took from those not in use, keeps them so on every way out that does not fault: on a
-- failure the host device is as before, the id included, and on a success the new connection is the
-- one that its id finds, and the data of every other id goes where it went.
pub create_range-Left :
    (supply : Supply) (hd : HostDevice) (intf : Option ℕ)
    (cport_id protocol_id ida_start ida_end : ℕ)
    → IsNumbered hd
    → ((id : ℕ)
        → supply.ida_get hd.cport_ids ida_start ida_end ≡ some id
        → has id hd.cport_ids ≡ false)
    → Left hd (create_range supply hd intf cport_id protocol_id ida_start ida_end)
unfolding create_range
create_range-Left supply hd intf cport_id protocol_id ida_start ida_end v unused =
    elim (Option-cases (is_duplicate intf cport_id hd.connections)) [
      | inl e ↦ rw (e, create_range) tt
      | inr (true, e) ↦ rw (e, create_range) (v, refl)
      | inr (false, e) ↦
          rw (e, create_range)
            (elim (Option-cases (supply.ida_get hd.cport_ids ida_start ida_end)) [
              | inl f ↦ rw f (v, refl)
              | inr (id, f) ↦ rw f (
                  create_with-Left supply hd
                    (record {
                      intf = intf;
                      hd_cport_id = id;
                      intf_cport_id = cport_id;
                      protocol_id = protocol_id;
                    })
                    v (unused id f))
            ])
    ]
