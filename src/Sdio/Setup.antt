-- ===== src/Sdio/Setup.antt =====
-- The SDIO driver's connection, sdio.c: the capabilities, the settings of the bus, start and end.
use greybus.Base.{
  ℕ, min, Bool, true, false, Option, none, some, List, [], ◌∷◌, ◌++◌, ◌+◌, ◌-◌, ◌%◌, ◌^◌, not, ltb,
  if◌then◌else◌, get_or, drop,
}
use greybus.Base.Monad.{Call, ◌>>=◌}
use greybus.Base.Bytes.{byte0, byte1, byte2, byte3}
use greybus.Errno.{Errno, success, enomem, eshutdown, is_success}
use greybus.Operation.Message.{le16}
use greybus.Sync.{Serve, operation_sync}
use greybus.Sdio.{Host, has_bits, process_events, event_recv}
use greybus.Sdio.Card.{word}
use greybus.Sdio.Kind

-- The host before its capabilities are known.
abbrev pub new_host : Host
new_host = record {
  data_max = 0;
  xfer_stop = false;
  queued_events = 0;
  removed = true;
  card_present = false;
  read_only = false;
  removable = true;
  max_blk_size = 0;
  max_blk_count = 0;
  ocr_avail = 0;
  changes = 0;
}

-- _gb_sdio_set_host_caps, of the capabilities whether the card can be removed.
unfoldable pub set_host_caps : ℕ → Host → Host
set_host_caps r h =
    if has_bits Kind.cap_nonremovable r
    then record h { removable = false; card_present = true }
    else record h { removable = true }

-- The largest data of a transfer: what is left of a payload behind the larger of the two headers, in
-- the 64 bits of a size_t and then in the 16 bits of data_max.
unfoldable pub data_max_of : ℕ → ℕ
data_max_of payload_max =
    let size = payload_max % 2 ^ 16 in
    min ((size + 2 ^ 64 - 5) % 2 ^ 64) ((size + 2 ^ 64 - 4) % 2 ^ 64) % 2 ^ 16

-- The limits that gb_sdio_get_caps takes from the response; `rounddown` is rounddown_pow_of_two, of the
-- kernel.
unfoldable pub set_limits : (ℕ → ℕ) → ℕ → List ℕ → Host → Host
set_limits rounddown payload_max response h =
    let data_max = data_max_of payload_max in
    let blksz = min (le16 (get_or response 10 0) (get_or response 11 0)) data_max in
    record h {
      max_blk_size = rounddown (if ltb blksz 512 then 512 else blksz);
      max_blk_count = le16 (get_or response 8 0) (get_or response 9 0);
      data_max = data_max;
      ocr_avail = word (drop 4 response);
    }

-- gb_sdio_get_caps
unfoldable pub get_caps : {R : Type 0} → Serve R → (ℕ → ℕ) → ℕ → Call (Host × R) Errno
get_caps serve rounddown payload_max (h, r) =
    (operation_sync serve Kind.get_capabilities [] 12 >>= λ (ret, response) (h, r).
    if is_success ret
    then some
        (success, (set_limits rounddown payload_max response (set_host_caps (word response) h), r))
    else some (ret, (h, r)))
      (h, r)

-- The settings of the bus, `struct mmc_ios` of the kernel, each with the values that the driver knows.
pub data PowerMode : Type 0 where
  off up on other_power : PowerMode

pub data BusWidth : Type 0 where
  width_1 width_4 width_8 other_width : BusWidth

pub data Timing : Type 0 where
  legacy mmc_hs sd_hs uhs_sdr12 uhs_sdr25 uhs_sdr50 uhs_sdr104 uhs_ddr50 mmc_hs200 other_timing :
      Timing

pub data Voltage : Type 0 where
  v330 v180 v120 other_voltage : Voltage

pub data DriverType : Type 0 where
  type_a type_b type_c type_d other_driver : DriverType

pub record Ios : Type 0 where
  pub clock : ℕ
  pub vdd : ℕ
  pub is_opendrain : Bool
  pub power_mode : PowerMode
  pub bus_width : BusWidth
  pub timing : Timing
  pub signal_voltage : Voltage
  pub drv_type : DriverType

unfoldable pub power_number : PowerMode → ℕ
power_number up = 1
power_number on = 2
power_number _ = 0

unfoldable pub width_number : BusWidth → ℕ
width_number width_1 = 0
width_number width_8 = 3
width_number _ = 2

unfoldable pub timing_number : Timing → ℕ
timing_number mmc_hs = 1
timing_number sd_hs = 2
timing_number uhs_sdr12 = 3
timing_number uhs_sdr25 = 4
timing_number uhs_sdr50 = 5
timing_number uhs_sdr104 = 6
timing_number uhs_ddr50 = 7
timing_number mmc_hs200 = 9
timing_number _ = 0

unfoldable pub voltage_number : Voltage → ℕ
voltage_number v330 = 0
voltage_number v120 = 2
voltage_number _ = 1

unfoldable pub driver_number : DriverType → ℕ
driver_number type_a = 1
driver_number type_c = 2
driver_number type_d = 3
driver_number _ = 0

-- A little-endian number of four bytes.
abbrev word_bytes : ℕ → List ℕ
word_bytes n = byte0 n ∷ byte1 n ∷ byte2 n ∷ byte3 n ∷ []

-- The request that gb_mmc_set_ios makes.
unfoldable pub ios_request : Ios → List ℕ
ios_request i =
    word_bytes i.clock
    ++ word_bytes (2 ^ i.vdd)
    ++ (if i.is_opendrain then 0 else 1)
      ∷ power_number i.power_mode
      ∷ width_number i.bus_width
      ∷ timing_number i.timing
      ∷ voltage_number i.signal_voltage
      ∷ driver_number i.drv_type
      ∷ []

-- gb_mmc_set_ios, with gb_sdio_set_ios: what the host's settings are afterwards.
unfoldable pub set_ios : {R : Type 0} → Serve R → Ios → Call (Ios × R) Errno
set_ios serve i = operation_sync serve Kind.set_ios (ios_request i) 0 >>= λ (ret, _) (old, r).
    some (ret, (if is_success ret then i else old, r))

-- gb_mmc_get_ro and gb_mmc_get_cd: what is returned, and whether the lock of the host is held after.
unfoldable pub get_ro : Host → (Errno × Bool) × Bool
get_ro h = if h.removed then ((eshutdown, false), true) else ((success, h.read_only), false)

unfoldable pub get_cd : Host → (Errno × Bool) × Bool
get_cd h = if h.removed then ((eshutdown, false), true) else ((success, h.card_present), false)

-- Events that come while the host is set up.
unfoldable pub receive_all : List ℕ → Host → Host
receive_all [] h = h
receive_all (event ∷ events) h = receive_all events (event_recv Kind.event (event ∷ []) h).1

-- What the kernel answers when a connection starts.
pub record Kernel : Type 0 where
  pub has_host : Bool
  pub has_buffer : Bool
  pub add_host : Errno
  pub rounddown : ℕ → ℕ
  pub payload_max : ℕ

-- gb_sdio_connection_init: the result, and the host, which is gone on a failure. `events` come between
-- the answer about the capabilities and the end.
unfoldable pub connection_init :
    {R : Type 0} → Serve R → Kernel → List ℕ → R → Option ((Errno × Option Host) × R)
connection_init serve k events r =
    if not k.has_host
    then some ((enomem, none), r)
    else elim (get_caps serve k.rounddown k.payload_max (new_host, r)) [
      | none ↦ none
      | some (ret, (h, r)) ↦
          if not (is_success ret)
          then some ((ret, none), r)
          else if not k.has_buffer
          then some ((enomem, none), r)
          else if not (is_success k.add_host)
          then some ((k.add_host, none), r)
          else let queued = receive_all events h in
            let started = process_events queued.queued_events (record queued { removed = false }) in
            some ((success, some (record started { queued_events = 0 })), r)
    ]
