-- ===== src/Connection/Tests.antt =====
-- A connection to an active device: bound to a loaded protocol and destroyed.
use greybus.Base.{zero, suc, ◌≡◌, refl, true, none, some, [], ◌∷◌, arith}
use greybus.Base.Monad.{Returns}
use greybus.Errno.{success, einval}
use greybus.Protocol
use greybus.Protocol.{Protocol}
use greybus.Operation.State.{disabled, enabled, error}
use greybus.Connection.{
  connected, disconnected, version_asked, connection_init, Peer, Link, set_state, note,
  tell_interface, tell_disconnected, tell_connected, get_version, ask_version, call_init, give_up,
  init, is_active_device, unbind, bring_up, bind_protocol, destroy, cport_id_bad,
}
use greybus.Connection.Host.{
  HostDevice, Supply, intf_find, is_duplicate, create_with, create_range, hd_find, data_rcvd, Left,
  create_range-Left,
}
use greybus.Connection.Bind.{HasRoom, Bound, bind_protocol-Bound}
use greybus.Connection.Life.{IsClosed, bound, start, next, Reach-destroy}

abbrev spi : Protocol
spi = record { id = 6; major = 0; minor = 1; count = 0; owner = 7 }

abbrev fresh : Link
fresh = record {
  connection = record {
    bundle = some 2;
    hd_cport_id = 4;
    intf_cport_id = 1;
    protocol = none;
    protocol_id = 6;
    major = 0;
    minor = 1;
    module_major = 0;
    module_minor = 0;
    state = disabled;
  };
  protocols = spi ∷ [];
  log = [];
}

-- The device answers all; the second one fails to start.
abbrev good : Peer
good = record {
  live = λ n. true;
  connected = success;
  version = success;
  version_major = 0;
  version_minor = 3;
  initialised = success;
}

abbrev bad : Peer
bad = record good { initialised = einval }

abbrev bound_link : Link
bound_link = record fresh {
  connection = record (fresh.connection) {
    protocol = some (record spi { count = 1 });
    module_minor = 3;
    state = enabled;
  };
  protocols = record spi { count = 1 } ∷ [];
  log = connection_init success ∷ version_asked ∷ connected success ∷ [];
}

bind_good : bind_protocol good fresh ≡ some (success, bound_link)
unfolding bind_protocol bring_up unbind is_active_device init give_up call_init ask_version
    get_version tell_connected tell_disconnected tell_interface note set_state
    Protocol.compare_entry Protocol.find Protocol.modify Protocol.count_up Protocol.count_down
    Protocol.get Protocol.put
bind_good = refl

bind_bad :
    bind_protocol bad fresh
    ≡ some (
      einval,
      record fresh {
        connection = record (fresh.connection) { module_minor = 3; state = error };
        log = disconnected ∷ connection_init einval ∷ version_asked ∷ connected success ∷ [];
      },
    )
unfolding bind_protocol bring_up unbind is_active_device init give_up call_init ask_version
    get_version tell_connected tell_disconnected tell_interface note set_state
    Protocol.compare_entry Protocol.find Protocol.modify Protocol.count_up Protocol.count_down
    Protocol.get Protocol.put
bind_bad = refl

room : HasRoom fresh.protocols
room zero p e = ground arith
room (suc i) p e = absurd (ground arith)

Reach-destroy_example :
    Returns
      (λ _ last.
        IsClosed last
        × (last.connection.hd_cport_id ≡ cport_id_bad)
        × (last.connection.protocol ≡ none))
      (destroy bound_link)
Reach-destroy_example =
    Reach-destroy fresh bound_link (refl, refl, refl, λ h. ground arith)
      (next start (bound good room bind_good))

bind_protocol-Bound_example : Returns (Bound fresh) (bind_protocol bad fresh)
bind_protocol-Bound_example = bind_protocol-Bound bad fresh (λ h. ground arith) refl room refl

-- The SVC's connection exists; a connection to interface 3 is created, and then its device cannot be
-- added.
abbrev host : HostDevice
host = record {
  connections =
      record { intf = some 7; hd_cport_id = 0; intf_cport_id = 0; protocol_id = 0xff } ∷ [];
  cport_ids = 0 ∷ [];
}

abbrev supply : Supply
supply = record {
  ida_get = λ ids first last. some 1;
  has_memory = true;
  has_workqueue = true;
  has_kfifo = true;
  device_add = success;
}

not_added :
    create_range (record supply { device_add = einval }) host (some 3) 2 6 0 9 ≡ some (none, host)
unfolding create_range is_duplicate intf_find create_with
not_added = refl

dropped : data_rcvd (λ c bytes w. c.hd_cport_id) host 5 [] 9 ≡ 9
unfolding data_rcvd hd_find
dropped = refl

create_range-Left_example : Left host (create_range supply host (some 3) 2 6 0 9)
create_range-Left_example =
    create_range-Left supply host (some 3) 2 6 0 9 (record { ids = refl; distinct = (refl, tt) })
      (λ id e. ground arith)
