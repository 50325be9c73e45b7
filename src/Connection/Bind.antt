-- ===== src/Connection/Bind.antt =====
-- gb_connection_bind_protocol as a whole: the protocol that is bound, and the balance of what the
-- connection opened and closed.
use greybus.Base.{
  ℕ, ◌+◌, ◌<◌, ◌≡◌, refl, inl, inr, Bool, true, false, Option, none, some, List, ◌==◌, not, ◌&&◌,
  arith, Bool-cases, Option-cases, is_some, get_elem?, ◌∙◌, ap, sym,
}
use greybus.Base.Monad.{Returns, bind}
use greybus.Errno.{Errno, success, is_success}
use greybus.Protocol
use greybus.Protocol.{Protocol, u8_max, count_up}
use greybus.Protocol.Count.{get-Is, put-get}
use greybus.Operation.State.{is_enabled}
use greybus.Connection.{
  Connection, Peer, Link, init, is_active_device, device_id_bad, unbind, bring_up, bind_protocol,
}
use greybus.Connection.Up.{
  opened, closed, started, stopped, opens, one, IsPlaced, Brought, init-Brought,
}

-- The device of the connection is active; the SVC is, before it has a bundle.
abbrev pub active : Connection → Bool
active c = elim c.bundle [ none ↦ true | some device_id ↦ not (device_id == device_id_bad) ]

-- What binding leaves: a bound connection is enabled exactly if its device is active and it could be
-- brought up; on a failure the protocol is given back, and the registry is as before.
pub record Bound (l : Link) (ret : Errno) (l' : Link) : Type 0 where
  pub bundle : l'.connection.bundle ≡ l.connection.bundle
  pub hd_cport_id : l'.connection.hd_cport_id ≡ l.connection.hd_cport_id
  pub intf_cport_id : l'.connection.intf_cport_id ≡ l.connection.intf_cport_id
  pub enabled :
      is_enabled l'.connection.state ≡ (is_some l'.connection.protocol && active l.connection)
  pub failed :
      is_success ret ≡ false → (l'.connection.protocol ≡ none) × (l'.protocols ≡ l.protocols)
  pub control :
      opened l'.log + closed l.log
      ≡ opened l.log + closed l'.log + opens l.connection (is_enabled l'.connection.state)
  pub runs :
      started l'.log + stopped l.log
      ≡ started l.log + stopped l'.log + one (is_enabled l'.connection.state)

-- No count is at its limit.
abbrev pub HasRoom : List Protocol → Type 0
HasRoom ps = (i : ℕ) (p : Protocol) → get_elem? ps i ≡ some p → p.count < u8_max

is_active_device_lem : (c : Connection) → IsPlaced c → is_active_device c ≡ some (active c)
unfolding is_active_device
is_active_device_lem c placed = elim (Option-cases c.bundle) [
  | inl e ↦ ground (arith, placed)
  | inr (d, e) ↦ ground arith
]

module _ (peer : Peer) (l : Link) (placed : IsPlaced l.connection)
    (off : is_enabled l.connection.state ≡ false) (room : HasRoom l.protocols) where
  -- After gb_protocol_get counted the protocol at a position.
  bring_up-Bound :
      (p : Protocol) (ps : List Protocol)
      → Protocol.put ps p.id p.major p.minor ≡ l.protocols
      → Returns (Bound l) (
          bring_up peer p
            (record l { protocols = ps; connection = record (l.connection) { protocol = some p } }))
  unfolding bring_up unbind
  bring_up-Bound p ps back =
      let counted : Link = record l {
        protocols = ps;
        connection = record (l.connection) { protocol = some p };
      } in
      let a : is_active_device counted.connection ≡ some (active l.connection) =
        is_active_device_lem counted.connection placed in
      rw (bring_up, a)
        (elim (Bool-cases (active l.connection)) [
          | inr n ↦ rw n (record {
            bundle = refl;
            hd_cport_id = refl;
            intf_cport_id = refl;
            enabled = off ∙ sym n;
            failed = λ bad. cc;
            control = ground arith;
            runs = ground arith;
          })
          | inl y ↦ rw y (
              bind (Brought counted) (Bound l) (init peer counted) _
                (init-Brought peer counted p placed refl off)
                λ ret l1 (m, e). elim (Bool-cases (is_success ret)) [
                  | inl t ↦ rw t (record {
                    bundle = m.alike.bundle;
                    hd_cport_id = m.alike.hd_cport_id;
                    intf_cport_id = m.alike.intf_cport_id;
                    enabled = ground (arith, m.alike.protocol);
                    failed = λ bad. cc;
                    control = ground (arith, m.control);
                    runs = ground (arith, m.runs);
                  })
                  | inr f ↦ rw f (record {
                    bundle = m.alike.bundle;
                    hd_cport_id = m.alike.hd_cport_id;
                    intf_cport_id = m.alike.intf_cport_id;
                    enabled = ground arith;
                    failed = λ bad.
                        (refl, ap (λ ps. Protocol.put ps p.id p.major p.minor) m.protocols ∙ back);
                    control = ground (arith, m.control);
                    runs = ground (arith, m.runs);
                  })
                ])
        ])

  bind_protocol-missing :
      (ps : List Protocol)
      → l.connection.protocol ≡ none
      → Protocol.get peer.live l.protocols l.connection.protocol_id l.connection.major
          l.connection.minor
        ≡ (none, ps)
      → bind_protocol peer l ≡ some (success, record l { protocols = ps })
  unfolding bind_protocol
  bind_protocol-missing ps unbound e = ground arith

  bind_protocol-found :
      (i : ℕ) (p : Protocol) (ps : List Protocol)
      → l.connection.protocol ≡ none
      → Protocol.get peer.live l.protocols l.connection.protocol_id l.connection.major
          l.connection.minor
        ≡ (some i, ps)
      → get_elem? ps i ≡ some p
      → bind_protocol peer l
        ≡ bring_up peer p
            (record l { protocols = ps; connection = record (l.connection) { protocol = some p } })
  unfolding bind_protocol
  bind_protocol-found i p ps unbound e there = ground arith

  -- Binding a connection that has no protocol and is not enabled, has a bundle unless it is the SVC's,
  -- and finds no count at its limit, does not fault: it is then enabled exactly if it has a protocol
  -- and its device is active, on a failure the protocol is given back and the registry is as before,
  -- and the interface and the protocol were told of one start more than of ends exactly if enabled.
  pub bind_protocol-Bound : l.connection.protocol ≡ none → Returns (Bound l) (bind_protocol peer l)
  bind_protocol-Bound unbound =
      look
        (Protocol.get peer.live l.protocols l.connection.protocol_id l.connection.major
          l.connection.minor)
        refl
    where
      look :
          (r : Option ℕ × List Protocol)
          → Protocol.get peer.live l.protocols l.connection.protocol_id l.connection.major
              l.connection.minor
            ≡ r
          → Returns (Bound l) (bind_protocol peer l)
      look (none, ps) e = rw (bind_protocol-missing ps unbound e) (record {
        bundle = refl;
        hd_cport_id = refl;
        intf_cport_id = refl;
        enabled = ground arith;
        failed = λ bad. cc;
        control = ground arith;
        runs = ground arith;
      })
      look (some i, ps) e =
          let (p, at, after, is) =
            get-Is peer.live l.protocols l.connection.protocol_id l.connection.major
              l.connection.minor (ap (λ r. r.0) e) in
          let there : get_elem? ps i ≡ some (count_up p) =
            ap (λ (r : Option ℕ × List Protocol). get_elem? r.1 i) (sym e) ∙ after in
          let back : Protocol.put ps (count_up p).id (count_up p).major (count_up p).minor
              ≡ l.protocols =
            rw (is.0, is.1, is.2)
              (ap
                  (λ (r : Option ℕ × List Protocol).
                    Protocol.put r.1 l.connection.protocol_id l.connection.major l.connection.minor)
                  (sym e)
                ∙ put-get peer.live l.protocols l.connection.protocol_id l.connection.major
                    l.connection.minor (ap (λ r. r.0) e) at (room i p at)) in
          rw (bind_protocol-found i (count_up p) ps unbound e there)
            (bring_up-Bound (count_up p) ps back)
