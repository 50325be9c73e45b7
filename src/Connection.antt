-- ===== src/Connection.antt =====
-- A connection, connection.c and connection.h: binding a protocol to it, bringing it up and taking it
-- down. What the other end, the protocol and the module loader answer is a `Peer`; the calls of the
-- interface, of the protocol and of the host driver are logged, the last one first.
-- A `struct gb_protocol *` is a copy of its entry, of which the id and the version are used.
pub mod Up
pub mod Bind
pub mod Life
pub mod Host
mod Tests
use greybus.Base.{
  ℕ, ◌+◌, Bool, true, false, Option, none, some, List, [], ◌∷◌, ◌==◌, ltb, not, ◌&&◌, if◌then◌else◌,
  get_elem?,
}
use greybus.Base.Monad.{Call, pure, ◌>>=◌, ◌>>◌}
use greybus.Errno.{Errno, success, enotsupp, eshutdown, is_success}
use greybus.Protocol
use greybus.Protocol.{Protocol}
use greybus.Operation.State.{ConnectionState, enabled, error, destroying, is_enabled}

abbrev pub svc_cport_id : ℕ
svc_cport_id = 0

abbrev pub control_cport_id : ℕ
control_cport_id = 0

abbrev pub device_id_bad : ℕ
device_id_bad = 0xff

abbrev pub cport_id_bad : ℕ
cport_id_bad = 65535

-- The fields of `struct gb_connection` that its own code uses. A bundle is the device id of its
-- interface.
pub record Connection : Type 0 where
  pub bundle : Option ℕ
  pub hd_cport_id : ℕ
  pub intf_cport_id : ℕ
  pub protocol : Option Protocol
  pub protocol_id : ℕ
  pub major : ℕ
  pub minor : ℕ
  pub module_major : ℕ
  pub module_minor : ℕ
  pub state : ConnectionState

-- What a connection made others do.
pub data Event : Type 0 where
  connected : Errno → Event
  disconnected : Event
  version_asked : Event
  connection_init : Errno → Event
  cancel_operations : Errno → Event
  connection_exit driver_destroy : Event
  id_removed : ℕ → Event

-- The answers to one call.
pub record Peer : Type 0 where
  pub live : ℕ → Bool
  pub connected : Errno
  pub version : Errno
  pub version_major : ℕ
  pub version_minor : ℕ
  pub initialised : Errno

-- The connection, the registry of protocols, and the log.
pub record Link : Type 0 where
  pub connection : Connection
  pub protocols : List Protocol
  pub log : List Event

abbrev pub with_connection : Link → Connection → Link
with_connection l c = record l { connection = c }

unfoldable pub set_state : ConnectionState → Call Link (Unit {0})
set_state s l = some (tt, with_connection l (record (l.connection) { state = s }))

unfoldable pub note : Event → Call Link (Unit {0})
note e l = some (tt, record l { log = e ∷ l.log })

-- The interface is told of a connection, but for the control connection and that of the SVC.
abbrev pub has_control : Connection → Bool
has_control c = not (c.intf_cport_id == control_cport_id) && not (c.hd_cport_id == svc_cport_id)

-- `connection->bundle->intf->control`, and a request to it.
unfoldable pub tell_interface : Event → Call Link (Unit {0})
unfolding note
tell_interface e l = elim l.connection.bundle [ none ↦ none | some device_id ↦ note e l ]

-- gb_connection_disconnected; the answer is only logged there.
unfoldable pub tell_disconnected : Call Link (Unit {0})
unfolding tell_interface
tell_disconnected l = if has_control l.connection then tell_interface disconnected l else pure tt l

-- The first part of gb_connection_init.
unfoldable pub tell_connected : Peer → Call Link Errno
unfolding tell_interface
tell_connected peer l =
    if has_control l.connection
    then (do tell_interface (connected peer.connected); pure peer.connected) l
    else pure success l

-- gb_protocol_get_version
unfoldable pub get_version : Peer → Call Link Errno
get_version peer l = elim l.connection.protocol [
  | none ↦ none
  | some p ↦
      let asked = record l { log = version_asked ∷ l.log } in
      if not (is_success peer.version)
      then some (peer.version, asked)
      else if ltb p.major peer.version_major
      then some (enotsupp, asked)
      else some (
        success,
        with_connection asked (record (l.connection) {
          module_major = peer.version_major;
          module_minor = peer.version_minor;
        }),
      )
]

-- The SVC asks for the version itself.
unfoldable pub ask_version : Peer → Call Link Errno
unfolding get_version
ask_version peer l =
    if l.connection.hd_cport_id == svc_cport_id then pure success l else get_version peer l

-- `connection->protocol->connection_init(connection)`
unfoldable pub call_init : Peer → Call Link Errno
call_init peer l = elim l.connection.protocol [
  | none ↦ none
  | some p ↦ some (peer.initialised, record l { log = connection_init peer.initialised ∷ l.log })
]

-- The label `disconnect` of gb_connection_init.
unfoldable pub give_up : Errno → Call Link Errno
unfolding set_state tell_disconnected
give_up ret = do set_state error; tell_disconnected; pure ret

-- gb_connection_init
unfoldable pub init : Peer → Call Link Errno
unfolding set_state
init peer = do
  told ← tell_connected peer
  if not (is_success told) then pure told else do
    set_state enabled
    version ← ask_version peer
    if not (is_success version)
        then give_up version
        else do ret ← call_init peer; if is_success ret then pure success else give_up ret

-- The test of gb_connection_bind_protocol for an active device; `none` is the null bundle read.
unfoldable pub is_active_device : Connection → Option Bool
is_active_device c = elim c.bundle [
  | none ↦ if c.hd_cport_id == svc_cport_id then some true else none
  | some device_id ↦ some (not (device_id == device_id_bad))
]

-- gb_protocol_put, and `connection->protocol = NULL`
unfoldable pub unbind : Protocol → Call Link (Unit {0})
unbind p l = some (
  tt,
  record l {
    protocols = Protocol.put l.protocols p.id p.major p.minor;
    connection = record (l.connection) { protocol = none };
  },
)

-- The second half of gb_connection_bind_protocol.
unfoldable pub bring_up : Peer → Protocol → Call Link Errno
bring_up peer p l = elim (is_active_device l.connection) [
  | none ↦ none
  | some active ↦
      (if not active
          then pure success
          else do ret ← init peer; if is_success ret then pure success else (do unbind p; pure ret))
        l
]

-- gb_connection_bind_protocol
unfoldable pub bind_protocol : Peer → Call Link Errno
bind_protocol peer l = elim l.connection.protocol [
  | some p ↦ some (success, l)
  | none ↦
      let c = l.connection in
      let (found, ps) = Protocol.get peer.live l.protocols c.protocol_id c.major c.minor in
      elim found [
        | none ↦ some (success, record l { protocols = ps })
        | some i ↦ elim (get_elem? ps i) [
          | none ↦ none
          | some p ↦
              bring_up peer p
                (record l { protocols = ps; connection = record c { protocol = some p } })
        ]
      ]
]

-- gb_connection_exit after its two tests.
unfoldable pub shut_down : Call Link (Unit {0})
unfolding set_state note tell_disconnected
shut_down = do
  set_state destroying
  note (cancel_operations eshutdown)
  note connection_exit
  tell_disconnected

-- gb_connection_exit
unfoldable pub exit : Call Link (Unit {0})
exit l = elim l.connection.protocol [
  | none ↦ some (tt, l)
  | some p ↦ if not (is_enabled l.connection.state) then some (tt, l) else shut_down l
]

-- The end of gb_connection_destroy: the protocol and the id of the CPort are given back.
unfoldable pub release : Call Link (Unit {0})
release l =
    let freed : Call Link (Unit {0}) = λ l'. some (
      tt,
      record l' {
        log = id_removed l'.connection.hd_cport_id ∷ l'.log;
        connection = record (l'.connection) { hd_cport_id = cport_id_bad; protocol = none };
      },
    ) in
    elim l.connection.protocol [ none ↦ freed l | some p ↦ (unbind p >> freed) l ]

-- gb_connection_destroy, but for the lists of the host device and the bundle.
unfoldable pub destroy : Call Link (Unit {0})
destroy = do exit; note driver_destroy; release
