-- ===== src/Connection/Up.antt =====
-- Bringing a bound connection up: what gb_connection_init leaves on each way out.
use greybus.Base.{
  ℕ, ◌+◌, ◌≡◌, refl, inl, inr, Bool, true, false, some, List, [], ◌∷◌, ◌==◌, ltb, ◌&&◌,
  if◌then◌else◌, arith, Bool-cases, Option-cases, is_some, ◌∙◌, ap, sym,
}
use greybus.Base.Monad.{Returns, bind, weaken}
use greybus.Errno.{Errno, is_success}
use greybus.Protocol.{Protocol}
use greybus.Operation.State.{enabled, error, is_enabled}
use greybus.Connection.{
  Connection, Event, connected, disconnected, connection_init, connection_exit, Peer, Link,
  with_connection, set_state, note, has_control, tell_interface, tell_disconnected, tell_connected,
  get_version, ask_version, call_init, give_up, init,
}

-- How often the interface was told of the connection with success, and that it ended; how often the
-- protocol was initialised with success, and left.
abbrev pub opened : List Event → ℕ
opened [] = 0
opened (connected e ∷ log) = if is_success e then opened log + 1 else opened log
opened (e ∷ log) = opened log

abbrev pub closed : List Event → ℕ
closed [] = 0
closed (disconnected ∷ log) = closed log + 1
closed (e ∷ log) = closed log

abbrev pub started : List Event → ℕ
started [] = 0
started (connection_init e ∷ log) = if is_success e then started log + 1 else started log
started (e ∷ log) = started log

abbrev pub stopped : List Event → ℕ
stopped [] = 0
stopped (connection_exit ∷ log) = stopped log + 1
stopped (e ∷ log) = stopped log

-- Only the connection of the SVC may have no bundle.
abbrev pub IsPlaced : Connection → Type 0
IsPlaced c = is_some c.bundle ≡ false → c.hd_cport_id ≡ 0

-- What identifies a connection is the same.
pub record Alike (c c' : Connection) : Type 0 where
  pub bundle : c'.bundle ≡ c.bundle
  pub hd_cport_id : c'.hd_cport_id ≡ c.hd_cport_id
  pub intf_cport_id : c'.intf_cport_id ≡ c.intf_cport_id
  pub protocol : c'.protocol ≡ c.protocol
  pub protocol_id : c'.protocol_id ≡ c.protocol_id
  pub major : c'.major ≡ c.major
  pub minor : c'.minor ≡ c.minor

-- From one link to another: the balance of what was opened and started changed by these amounts.
pub record Moved (x y : ℕ) (l l' : Link) : Type 0 where
  pub alike : Alike l.connection l'.connection
  pub protocols : l'.protocols ≡ l.protocols
  pub control : opened l'.log + closed l.log ≡ opened l.log + closed l'.log + x
  pub runs : started l'.log + stopped l.log ≡ started l.log + stopped l'.log + y

abbrev pub opens : Connection → Bool → ℕ
opens c b = if has_control c && b then 1 else 0

abbrev pub one : Bool → ℕ
one b = if b then 1 else 0

pub Alike-refl : (c : Connection) → Alike c c
Alike-refl c = record {
  bundle = refl;
  hd_cport_id = refl;
  intf_cport_id = refl;
  protocol = refl;
  protocol_id = refl;
  major = refl;
  minor = refl;
}

Alike-trans : {a b c : Connection} → Alike a b → Alike b c → Alike a c
Alike-trans x y = record {
  bundle = y.bundle ∙ x.bundle;
  hd_cport_id = y.hd_cport_id ∙ x.hd_cport_id;
  intf_cport_id = y.intf_cport_id ∙ x.intf_cport_id;
  protocol = y.protocol ∙ x.protocol;
  protocol_id = y.protocol_id ∙ x.protocol_id;
  major = y.major ∙ x.major;
  minor = y.minor ∙ x.minor;
}

Moved-trans :
    {x y x' y' x'' y'' : ℕ} {a b c : Link}
    → Moved x y a b
    → Moved x' y' b c
    → x + x' ≡ x''
    → y + y' ≡ y''
    → Moved x'' y'' a c
Moved-trans m n e f = record {
  alike = Alike-trans m.alike n.alike;
  protocols = n.protocols ∙ m.protocols;
  control = omega (arith, m.control, n.control);
  runs = omega (arith, m.runs, n.runs);
}

module _ (l : Link) (placed : IsPlaced l.connection) where
  -- The interface is told, if it is to be, and nothing else happens.
  tell_connected-Moved :
      (peer : Peer)
      → Returns
          (λ ret l'.
            Moved (opens l.connection (is_success ret)) 0 l l' × (l'.connection ≡ l.connection))
          (tell_connected peer l)
  unfolding tell_connected tell_interface note
  tell_connected-Moved peer = elim (Bool-cases (has_control l.connection)) [
    | inr n ↦ rw n (
      record { alike = Alike-refl _; protocols = refl; control = omega arith; runs = omega arith },
      refl,
    )
    | inl y ↦ elim (Option-cases l.connection.bundle) [
      | inl e ↦ absurd (ground arith)
      | inr (d, e) ↦
          rw (y, e)
            (
              record {
                alike = Alike-refl _;
                protocols = refl;
                control = ground arith;
                runs = omega arith;
              },
              refl,
            )
    ]
  ]

  pub tell_disconnected-Moved :
      Returns
        (λ _ l'.
          (l'.connection ≡ l.connection)
          × (l'.protocols ≡ l.protocols)
          × (opened l'.log ≡ opened l.log)
          × (closed l'.log ≡ closed l.log + opens l.connection true)
          × (started l'.log ≡ started l.log)
          × (stopped l'.log ≡ stopped l.log))
        (tell_disconnected l)
  unfolding tell_disconnected tell_interface note
  tell_disconnected-Moved = elim (Bool-cases (has_control l.connection)) [
    | inr n ↦ rw n (refl, refl, refl, omega arith, refl, refl)
    | inl y ↦ elim (Option-cases l.connection.bundle) [
      | inl e ↦ absurd (ground arith)
      | inr (d, e) ↦ rw (y, e) (refl, refl, refl, omega arith, refl, refl)
    ]
  ]

module _ (peer : Peer) (l : Link) (p : Protocol) (bound : l.connection.protocol ≡ some p) where
  get_version-Moved :
      Returns
        (λ ret l'. Moved 0 0 l l' × (l'.connection.state ≡ l.connection.state))
        (get_version peer l)
  unfolding get_version
  get_version-Moved =
      rw (bound, get_version)
        (elim (Bool-cases (is_success peer.version)) [
          | inr n ↦ rw n (ground arith, refl)
          | inl y ↦ rw y (elim (Bool-cases (ltb p.major peer.version_major)) [
            | inl t ↦ rw t (ground arith, refl)
            | inr f ↦ rw f (ground arith, refl)
          ])
        ])

  ask_version-Moved :
      Returns
        (λ ret l'. Moved 0 0 l l' × (l'.connection.state ≡ l.connection.state))
        (ask_version peer l)
  unfolding ask_version
  ask_version-Moved = elim (Bool-cases (l.connection.hd_cport_id == 0)) [
    | inl y ↦ rw y (ground arith, refl)
    | inr n ↦ rw n (get_version-Moved)
  ]

  call_init-Moved :
      Returns
        (λ ret l'.
          Moved 0 (one (is_success ret)) l l'
          × (l'.connection ≡ l.connection)
          × (ret ≡ peer.initialised))
        (call_init peer l)
  unfolding call_init
  call_init-Moved = rw (bound, call_init) (ground arith, ground arith, refl)

-- After a failure the interface is told that the connection ended.
give_up-Moved :
    (l : Link) (ret : Errno)
    → IsPlaced l.connection
    → is_success ret ≡ false
    → Returns
        (λ r l'.
          Alike l.connection l'.connection
          × (l'.protocols ≡ l.protocols)
          × (opened l'.log ≡ opened l.log)
          × (closed l'.log ≡ closed l.log + opens l.connection true)
          × (started l'.log ≡ started l.log)
          × (stopped l'.log ≡ stopped l.log)
          × (is_enabled l'.connection.state ≡ false)
          × (r ≡ ret))
        (give_up ret l)
unfolding give_up set_state
give_up-Moved l ret placed bad =
    let failed : Link = with_connection l (record (l.connection) { state = error }) in
    bind _ _ (tell_disconnected failed) _ (tell_disconnected-Moved failed placed)
      λ _ l' (c, ps, o, k, a, b).
        (ground arith, ps, o, k, a, b, ap (λ c. is_enabled c.state) c, refl)

-- What bringing a connection up leaves, with its answer.
abbrev pub Brought : Link → Errno → Link → Type 0
Brought l ret l' =
    Moved (opens l.connection (is_success ret)) (one (is_success ret)) l l'
    × (is_enabled l'.connection.state ≡ is_success ret)

taken_back :
    (l l2 : Link) (ret : Errno)
    → IsPlaced l.connection
    → Moved (opens l.connection true) 0 l l2
    → is_success ret ≡ false
    → Returns (Brought l) (give_up ret l2)
taken_back l l2 ret placed m bad =
    let a = m.alike in
    let placed2 : IsPlaced l2.connection =
      λ h. a.hd_cport_id ∙ placed (ap is_some (sym a.bundle) ∙ h) in
    let tells : opens l2.connection true ≡ opens l.connection true =
      ground (arith, a.hd_cport_id, a.intf_cport_id) in
    weaken _ (Brought l) (give_up ret l2) (give_up-Moved l2 ret placed2 bad)
      λ r l3 (b, ps, o, k, s, t, off, same).
        let c : opens l.connection (is_success r) ≡ 0 = ground arith in
        (
          record {
            alike = Alike-trans m.alike b;
            protocols = ps ∙ m.protocols;
            control = omega (arith, m.control);
            runs = ground (arith, m.runs);
          },
          ground arith,
        )

enabled-Moved :
    (l l1 : Link) (told : Errno)
    → Moved (opens l.connection (is_success told)) 0 l l1
    → is_success told ≡ true
    → Moved
        (opens l.connection true)
        0
        l
        (with_connection l1 (record (l1.connection) { state = enabled }))
enabled-Moved l l1 told m y =
    let a = m.alike in
    record {
      alike = record {
        bundle = a.bundle;
        hd_cport_id = a.hd_cport_id;
        intf_cport_id = a.intf_cport_id;
        protocol = a.protocol;
        protocol_id = a.protocol_id;
        major = a.major;
        minor = a.minor;
      };
      protocols = m.protocols;
      control = ground (arith, m.control);
      runs = m.runs;
    }

-- Bringing a bound connection up: it is enabled exactly on success, and on every failure what was told
-- to the interface is taken back.
pub init-Brought :
    (peer : Peer) (l : Link) (p : Protocol)
    → IsPlaced l.connection
    → l.connection.protocol ≡ some p
    → is_enabled l.connection.state ≡ false
    → Returns (Brought l) (init peer l)
unfolding init set_state
init-Brought peer l p placed bound off =
    bind _ (Brought l) (tell_connected peer l) _ (tell_connected-Moved l placed peer)
      λ told l1 (m1, same). elim (Bool-cases (is_success told)) [
        | inr n ↦ rw n (
          record {
            alike = m1.alike;
            protocols = m1.protocols;
            control = ground (arith, m1.control);
            runs = ground (arith, m1.runs);
          },
          ap (λ c. is_enabled c.state) same ∙ (off ∙ sym n),
        )
        | inl y ↦ rw y (
            let on : Link = with_connection l1 (record (l1.connection) { state = enabled }) in
            bind _ (Brought l) (ask_version peer on) _
              (ask_version-Moved peer on p (ap (λ c. c.protocol) same ∙ bound))
              λ version l2 (m2, e2).
                let m : Moved (opens l.connection true) 0 l l2 =
                  Moved-trans (enabled-Moved l l1 told m1 y) m2 (omega arith) (omega arith) in
                elim (Bool-cases (is_success version)) [
                  | inr n ↦ rw n (taken_back l l2 version placed m n)
                  | inl y ↦ rw y (
                      bind _ (Brought l) (call_init peer l2) _
                        (call_init-Moved peer l2 p (m.alike.protocol ∙ bound))
                        λ ret l3 (m3, same3, e3). elim (Bool-cases (is_success ret)) [
                          | inl t ↦ rw t (
                            Moved-trans m m3 (omega arith) (ground arith),
                            ap (λ c. is_enabled c.state) same3 ∙ ap is_enabled e2,
                          )
                          | inr f ↦ rw f (
                              taken_back l l3 ret placed
                                (Moved-trans m m3 (omega arith) (ground arith)) f)
                        ])
                ])
      ]
