-- ===== src/Connection/Life.antt =====
-- The life of a connection: bound again and again, as protocols come, until it is destroyed.
use greybus.Base.{
  ◌+◌, ◌≡◌, refl, inl, inr, true, false, none, some, List, [], ◌∷◌, arith, Bool-cases, Option-cases,
  is_some, ◌∙◌, ap, sym, subst,
}
use greybus.Base.Monad.{Returns, bind, weaken}
use greybus.Errno.{Errno, success, eshutdown}
use greybus.Protocol.{Protocol}
use greybus.Operation.State.{disabled, destroying, is_enabled}
use greybus.Connection.{
  cancel_operations, connection_exit, driver_destroy, id_removed, Peer, Link, set_state, note,
  tell_disconnected, bind_protocol, unbind, shut_down, exit, release, destroy, cport_id_bad,
}
use greybus.Connection.Up.{
  opened, closed, started, stopped, opens, one, IsPlaced, tell_disconnected-Moved,
}
use greybus.Connection.Bind.{HasRoom, Bound, bind_protocol-Bound}

-- What the connection opened and has not closed is what an enabled connection needs: the interface
-- knows of it, and its protocol was initialised once.
pub record IsBalanced (l : Link) : Type 0 where
  pub control : opened l.log ≡ closed l.log + opens l.connection (is_enabled l.connection.state)
  pub runs : started l.log ≡ stopped l.log + one (is_enabled l.connection.state)
  pub bound : is_enabled l.connection.state ≡ true → is_some l.connection.protocol ≡ true
  pub placed : IsPlaced l.connection

-- Everything that was opened is closed, and everything that was started is stopped.
pub record IsClosed (l : Link) : Type 0 where
  pub control : opened l.log ≡ closed l.log
  pub runs : started l.log ≡ stopped l.log
  pub off : is_enabled l.connection.state ≡ false

shut_down-IsClosed :
    (l : Link)
    → IsBalanced l
    → is_enabled l.connection.state ≡ true
    → Returns
        (λ _ l'.
          IsClosed l'
          × (l'.connection ≡ record (l.connection) { state = destroying })
          × (l'.protocols ≡ l.protocols))
        (shut_down l)
unfolding shut_down set_state note
shut_down-IsClosed l v on =
    let left : Link = record l {
      connection = record (l.connection) { state = destroying };
      log = connection_exit ∷ cancel_operations eshutdown ∷ l.log;
    } in
    weaken _ _ (tell_disconnected left) (tell_disconnected-Moved left v.placed)
      λ _ l' (c, ps, o, k, s, t). (
        record {
          control = ground (arith, v.control);
          runs = ground (arith, v.runs);
          off = ap (λ c. is_enabled c.state) c;
        },
        c,
        ps,
      )

exit_off : (l : Link) → is_enabled l.connection.state ≡ false → exit l ≡ some (tt, l)
unfolding exit
exit_off l off = elim (Option-cases l.connection.protocol) [
  | inl e ↦ ground arith
  | inr (p, e) ↦ ground arith
]

exit_on :
    (l : Link) (p : Protocol)
    → l.connection.protocol ≡ some p
    → is_enabled l.connection.state ≡ true
    → exit l ≡ shut_down l
unfolding exit
exit_on l p e on = ground arith

exit-IsClosed :
    (l : Link)
    → IsBalanced l
    → Returns
        (λ _ l'.
          IsClosed l'
          × (l'.connection.hd_cport_id ≡ l.connection.hd_cport_id)
          × (l'.connection.protocol ≡ l.connection.protocol)
          × (l'.protocols ≡ l.protocols))
        (exit l)
exit-IsClosed l v = elim (Bool-cases (is_enabled l.connection.state)) [
  | inl on ↦ elim (Option-cases l.connection.protocol) [
    | inl e ↦ absurd (ground (arith, v.bound))
    | inr (p, e) ↦ rw (exit_on l p e on) (
        weaken _ _ (shut_down l) (shut_down-IsClosed l v on)
          λ _ l' (c, same, ps). (c, ap (λ c. c.hd_cport_id) same, ap (λ c. c.protocol) same, ps))
  ]
  | inr off ↦ rw (exit_off l off) (
    record { control = ground (arith, v.control); runs = ground (arith, v.runs); off = off },
    refl,
    refl,
    refl,
  )
]

release_lem :
    (l : Link)
    → Returns
        (λ _ l'.
          (l'.connection.state ≡ l.connection.state)
          × (l'.log ≡ id_removed l.connection.hd_cport_id ∷ l.log)
          × (l'.connection.hd_cport_id ≡ cport_id_bad)
          × (l'.connection.protocol ≡ none))
        (release l)
unfolding release unbind
release_lem l = elim (Option-cases l.connection.protocol) [
  | inl e ↦ rw e (refl, refl, refl, refl)
  | inr (p, e) ↦ rw e (refl, refl, refl, refl)
]

-- Destroying a connection does not fault; afterwards all that was opened is closed, all that was
-- started is stopped, and the connection has neither an id nor a protocol.
pub destroy-IsClosed :
    (l : Link)
    → IsBalanced l
    → Returns
        (λ _ l'.
          IsClosed l'
          × (l'.connection.hd_cport_id ≡ cport_id_bad)
          × (l'.connection.protocol ≡ none))
        (destroy l)
unfolding destroy note
destroy-IsClosed l v = bind _ _ (exit l) _ (exit-IsClosed l v) λ _ l1 (c, same, bound, ps).
    weaken _ _ (release (record l1 { log = driver_destroy ∷ l1.log }))
      (release_lem (record l1 { log = driver_destroy ∷ l1.log }))
      λ _ l2 (s, g, h, b). (
        record {
          control = ground (arith, c.control);
          runs = ground (arith, c.runs);
          off = ap is_enabled s ∙ c.off;
        },
        h,
        b,
      )

-- A connection is bound again, as a protocol comes, and others change the registry.
pub data Step : Link → Link → Type 0 where
  bound :
      {l l' : Link} (peer : Peer) {ret : Errno}
      → HasRoom l.protocols
      → bind_protocol peer l ≡ some (ret, l')
      → Step l l'
  registered : {l : Link} (ps : List Protocol) → Step l (record l { protocols = ps })

pub data Reach : Link → Link → Type 0 where
  start : {l : Link} → Reach l l
  next : {l l' l'' : Link} → Reach l l' → Step l' l'' → Reach l l''

bind_protocol-again :
    (peer : Peer) (l : Link) (p : Protocol)
    → l.connection.protocol ≡ some p
    → bind_protocol peer l ≡ some (success, l)
unfolding bind_protocol
bind_protocol-again peer l p e = ground arith

Bound-IsBalanced :
    (l l' : Link) (ret : Errno)
    → l.connection.protocol ≡ none
    → IsBalanced l
    → Bound l ret l'
    → IsBalanced l'
Bound-IsBalanced l l' ret unbound v b =
    let off : is_enabled l.connection.state ≡ false = ground (arith, v.bound) in
    record {
      control = ground (arith, v.control, b.control, b.hd_cport_id, b.intf_cport_id);
      runs = ground (arith, v.runs, b.runs);
      bound = λ on. ground (arith, b.enabled);
      placed = λ h. b.hd_cport_id ∙ v.placed (ap is_some (sym b.bundle) ∙ h);
    }

Step-IsBalanced : {l l' : Link} → Step l l' → IsBalanced l → IsBalanced l'
Step-IsBalanced {l} (bound peer {ret} room e) v = elim (Option-cases l.connection.protocol) [
  | inl unbound ↦ Bound-IsBalanced l _ ret unbound v (
      subst (Returns (Bound l)) e
        (bind_protocol-Bound peer l v.placed (ground (arith, v.bound)) room unbound))
  | inr (p, there) ↦ subst IsBalanced (ground (arith, bind_protocol-again peer l p there)) v
]
Step-IsBalanced (registered ps) v = record {
  control = v.control;
  runs = v.runs;
  bound = v.bound;
  placed = v.placed;
}

Reach-IsBalanced : {l l' : Link} → Reach l l' → IsBalanced l → IsBalanced l'
Reach-IsBalanced start v = v
Reach-IsBalanced (next r s) v = Step-IsBalanced s (Reach-IsBalanced r v)

-- A connection as gb_connection_create_range leaves it.
abbrev pub IsFresh : Link → Type 0
IsFresh l =
    (l.connection.state ≡ disabled)
    × (l.connection.protocol ≡ none)
    × (l.log ≡ [])
    × IsPlaced l.connection

-- A new connection may be bound any number of times, brought up or not, while others change the
-- registry and no count is at its limit: destroying it then does not fault, the interface was told of
-- the end of each time it was told of the connection, the protocol was left each time it was
-- initialised, and the connection has neither an id nor a protocol.
pub Reach-destroy :
    (l l' : Link)
    → IsFresh l
    → Reach l l'
    → Returns
        (λ _ last.
          IsClosed last
          × (last.connection.hd_cport_id ≡ cport_id_bad)
          × (last.connection.protocol ≡ none))
        (destroy l')
Reach-destroy l l' (off, unbound, empty, placed) r = destroy-IsClosed l' (
    Reach-IsBalanced r (
      rw (off, unbound, empty)
        (record {
          control = ground arith;
          runs = refl;
          bound = λ on. ground arith;
          placed = placed;
        })))
