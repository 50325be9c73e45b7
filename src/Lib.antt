-- ===== src/Lib.antt =====
-- The core of the Greybus driver: the parts of it that decide, apart from the kernel that calls
-- them.
--
-- The SVC reports modules that are plugged into the endoskeleton; a module has interfaces. An
-- interface hands over a manifest, which names its connections. A connection has a protocol
-- from a registry, and carries operations: a request message one way and a response the other.
-- The parts here are these.
-- * Operation (operation.c, operation.h, struct gb_operation_msg_hdr of greybus_protocols.h,
--   and the fields of struct gb_connection that the code uses). Message has the bytes and the
--   allocation of a message; Status the status bytes (gb_operation_status_map,
--   gb_operation_errno_map); State the memory with its reference and activity counts
--   (gb_operation_get, put, get_active, put_active, result_set, find_outgoing); Send creation
--   and sending (create_common, request_send, response_send); Work what follows
--   (greybus_message_sent, gb_operation_work, the cancellations); Recv what arrives
--   (gb_connection_recv and its two halves). Result, Invariant, Effects, Submit, Request,
--   Create, Receive, Complete, Reply, Respond, Success, Finish, Withdraw, Wrap and Overflow
--   prove.
-- * Protocol (protocol.c, protocol.h): __gb_protocol_register is insert, and gb_protocol_find,
--   deregister, get and put keep their names.
-- * Endo (endo.c, endo.h): gb_endo_validate_id, endo_get_module_id and create_modules.
-- * Manifest (manifest.c, greybus_manifest.h): identify_descriptor, gb_string_get, and
--   gb_manifest_parse up to the one interface descriptor.
-- * Connection (connection.c, connection.h, gb_protocol_get_version of protocol.c): binding a
--   protocol (bind_protocol), gb_connection_init, exit and destroy keep their names. A Link is
--   a connection, the registry of protocols, and a log of what the connection made the
--   interface, the protocol and the driver do. Up, Bind and Life prove: what gb_connection_init
--   leaves, what binding leaves, and what a whole life leaves. Host has the connections of a
--   host device: intf_find, hd_find, data_rcvd and create_range are gb_connection_intf_find,
--   gb_connection_hd_find, greybus_data_rcvd and gb_connection_create_range.
-- * Svc (svc.c, interface.c): a Host is the SVC's state, the Endo, the interfaces of the host
--   device, the map of device ids, and the queued hotplugs. request_recv is gb_svc_request_recv
--   with the handlers under their names, process_hotplug is svc_process_hotplug,
--   interface_create, find, remove and interface_init are the functions of interface.c (State);
--   gb_svc_hello calls ap_interface_create. Order, Turn, Quiet, Devices, Allocated, Reached and
--   Startup prove.
-- * Bundle (bundle.c, greybus_id.h): match_one_id, match_id, find and create_bundle are
--   gb_bundle_match_one_id, gb_bundle_match_id, gb_bundle_find and gb_bundle_create; Match
--   proves.
-- * Raw (raw.c): receive, receive_data, send, write and read are gb_raw_receive, receive_data,
--   gb_raw_send, raw_write and raw_read; Fifo and Queue prove.
-- * Loopback (loopback.c): calc_latency, update_stats, calculate_stats, check_attr and
--   request_recv are the functions of these names; Summary proves.
-- * I2c (i2c.c): operation_create, decode_response and transfer_operation; Layout proves.
-- * Sync (operation.c): operation_sync is gb_operation_sync as a driver sees it; the operation
--   core, the transport and the other end are one argument, a function from a request to an
--   answer.
-- * Gpio (gpio.c): Line and Controller are what the driver keeps, the functions that end in
--   _operation its requests, and ask the calls of the chip's users. Irq has the interrupts,
--   with bus_sync_unlock and request_recv, Setup the connection's start and end. Cache, Unlock
--   and Life prove.
-- * Sdio (sdio.c): Host is the host; process_events, queue_event and event_recv, send, recv,
--   transfer_loop and transfer are the functions of these names. Card has the commands and the
--   work on a request, Setup the capabilities, the settings of the bus and the start. Rounds,
--   Ended, Written, Endless, Served and Events prove.
-- * Uart (uart.c): Tty is a terminal; receive_data, send_data and set_termios are the functions
--   of these names. Control has the control lines and the flow control, Session the start and
--   end of connections, which share a table of minor numbers. Lines and Minors prove.
-- * Pwm (pwm.c): Chip is the chip, ask the calls of its users, and the functions that end in
--   _operation are those of these names; Asked proves.
-- * Spi (spi.c): operation_create, decode_response, transfer_one_message and init are the
--   functions of these names; Layout and Message prove.
-- * Battery (battery.c): get_property and the functions it calls, of these names; Shown proves.
-- * Base has the shared names, lists and tests, the bytes of a number, the monad of code that
--   may fault, and Errno the error numbers.
--
-- Stateful code is a function from a World to its result and the World after; none stands for a
-- memory fault, that is a use after free, a copy out of bounds, or a count below zero. A
-- theorem with Returns says that there is no fault. A pointer to an operation is a number, a
-- buffer is the list of its bytes, and a u8, u16 or size_t is a native number with its
-- wrap-around written out. The counts of references, activations and waiters of an operation
-- and the bytes that an SDIO transfer counts are numbers without a limit. Each function is one
-- atomic step, as it is under the lock or in the single context that calls it; interleavings of
-- several contexts are sequences of such steps; the work on one hotplug is one step too. A
-- connection's calls of the interface and the protocol are entries of its log, with the answers
-- taken from a Peer; those of the SVC's hotplug are answers of a Peer as well. The answers of
-- the allocators, of the host driver, of try_module_get, and of a protocol's request handler
-- are arguments.
--
-- Fuel: the loop of an SDIO transfer takes a whole block at least in each round, so one round
-- more than the blocks is enough (Sdio.Ended); the pass over a manifest takes a unit for each
-- descriptor, of four bytes at least, so the number of bytes is enough (Manifest.Scan);
-- reverse_bits shifts an eight bit mask, so that nine rounds end it; the search for a rib
-- halves the mask of the interface's place, so one round more than the place is enough
-- (Endo.Modules).
--
-- Not modelled: the slab caches, work queues, waits and locks of the kernel, logging, reference
-- counts of devices, sysfs, the devices that a parsed manifest creates, the host drivers es1.c
-- and es2.c, the control protocol, the threads and attributes of loopback.c, the glue of the
-- drivers to their subsystems, the ioctls of uart.c, and the other class drivers, which turn
-- calls of kernel subsystems into operations.
pub mod Base
pub mod Errno
pub mod Protocol
pub mod Operation
pub mod Endo
pub mod Manifest
pub mod Connection
pub mod Bundle
pub mod Svc
pub mod Raw
pub mod Loopback
pub mod I2c
pub mod Sync
pub mod Gpio
pub mod Sdio
pub mod Uart
pub mod Pwm
pub mod Spi
pub mod Battery
