-- ===== src/Loopback.antt =====
-- The loopback driver, loopback.c: latencies, statistics and the requests of the module.
-- A `u32` and a `u64` are native numbers with their wrap-around. `none` is a fault: a division by zero,
-- or a copy past a buffer.
pub mod Summary
mod Tests
use greybus.Base.{
  ℕ, ◌+◌, ◌-◌, ◌*◌, ◌/◌, ◌%◌, ◌^◌, Bool, true, false, Option, none, some, List, [], ◌∷◌, ◌++◌, ◌==◌,
  ltb, not, ◌||◌, if◌then◌else◌, length, take, map,
}
use greybus.Base.Bytes.{le32}
use greybus.Errno.{Errno, success, einval, enomem}

-- `struct gb_loopback_stats`
pub record Stats : Type 0 where
  pub min : ℕ
  pub max : ℕ
  pub sum : ℕ
  pub count : ℕ

abbrev pub u32_max : ℕ
u32_max = 4294967295

abbrev pub ms_wait_max : ℕ
ms_wait_max = 1000

abbrev pub nsec_per_usec : ℕ
nsec_per_usec = 1000

abbrev pub usec_per_sec : ℕ
usec_per_sec = 1000000

abbrev pub nsec_per_day : ℕ
nsec_per_day = 86400000000000

abbrev pub type_ping : ℕ
type_ping = 0x02

abbrev pub type_transfer : ℕ
type_transfer = 0x03

abbrev pub type_sink : ℕ
type_sink = 0x04

-- sizeof(struct gb_operation_msg_hdr)
abbrev pub header_size : ℕ
header_size = 8

-- sizeof(struct gb_loopback_transfer_request)
abbrev pub transfer_request_size : ℕ
transfer_request_size = 4

-- sizeof(struct gb_loopback_transfer_response)
abbrev pub transfer_response_size : ℕ
transfer_response_size = 0

-- A difference of two `u64`s.
abbrev pub sub64 : ℕ → ℕ → ℕ
sub64 a b = (a + 2 ^ 64 - b) % 2 ^ 64

-- gb_loopback_nsec_to_usec_latency
unfoldable pub nsec_to_usec_latency : ℕ → ℕ
nsec_to_usec_latency elapsed_nsecs = elapsed_nsecs / nsec_per_usec % 2 ^ 32

-- __gb_loopback_calc_latency
unfoldable pub calc_latency : ℕ → ℕ → ℕ
calc_latency t1 t2 = if ltb t1 t2 then t2 - t1 else (sub64 nsec_per_day t2 + t1) % 2 ^ 64

-- The `reset` of gb_loopback_reset_stats.
abbrev pub reset : Stats
reset = record { min = u32_max; max = 0; sum = 0; count = 0 }

-- gb_loopback_update_stats
unfoldable pub update_stats : Stats → ℕ → Stats
update_stats stats val = record {
  min = if ltb val stats.min then val else stats.min;
  max = if ltb stats.max val then val else stats.max;
  sum = (stats.sum + val) % 2 ^ 64;
  count = (stats.count + 1) % 2 ^ 32;
}

-- The statistics of a `struct gb_loopback`, or of the device for all connections.
pub record Group : Type 0 where
  pub latency : Stats
  pub latency_gb : Stats
  pub throughput : Stats
  pub requests_per_second : Stats

-- `struct gb_loopback`
pub record Loopback : Type 0 where
  pub stats : Group
  pub kfifo_lat : List ℕ
  pub elapsed_nsecs : ℕ
  pub elapsed_nsecs_gb : ℕ
  pub iteration_count : ℕ
  pub error : ℕ

-- `struct gb_loopback_device`
pub record Device : Type 0 where
  pub stats : Group
  pub type : ℕ
  pub size : ℕ
  pub size_max : ℕ
  pub ms_wait : ℕ
  pub iteration_count : ℕ
  pub error : ℕ
  pub list : List Loopback

-- One statistic of a group.
pub data Field : Type 0 where
  latencies latencies_gb throughputs requests : Field

unfoldable pub update_group : Field → ℕ → Group → Group
update_group latencies val g = record g { latency = update_stats g.latency val }
update_group latencies_gb val g = record g { latency_gb = update_stats g.latency_gb val }
update_group throughputs val g = record g { throughput = update_stats g.throughput val }
update_group requests val g = record g {
  requests_per_second = update_stats g.requests_per_second val;
}

-- The bytes of one operation, as gb_loopback_throughput_update counts them.
unfoldable pub aggregate_size : ℕ → ℕ → Option ℕ
aggregate_size type size =
    if type == type_ping
    then some (header_size * 2)
    else if type == type_sink
    then some ((header_size * 2 + transfer_request_size + size) % 2 ^ 32)
    else if type == type_transfer
    then some
        ((header_size * 2 + (transfer_request_size + transfer_response_size + size * 2)) % 2 ^ 32)
    else none

-- gb_loopback_throughput_update: the rate that is added, if there is one.
unfoldable pub throughput_of : ℕ → ℕ → ℕ → Option (Option ℕ)
throughput_of type size lat = elim (aggregate_size type size) [
  | none ↦ some none
  | some n ↦ if lat == 0 then none else some (some (usec_per_sec / lat * n % 2 ^ 32))
]

-- gb_loopback_requests_update: the rate that is added.
unfoldable pub requests_of : ℕ → Option ℕ
requests_of lat = if lat == 0 then none else some (usec_per_sec / lat)

-- A value is added to the statistics of the device and of the connection.
unfoldable pub add : Field → ℕ → Group × Group → Group × Group
add field val (dev, con) = (update_group field val dev, update_group field val con)

unfoldable pub add_some : Field → Option ℕ → Group × Group → Group × Group
add_some field none groups = groups
add_some field (some val) groups = add field val groups

-- gb_loopback_calculate_stats
unfoldable pub calculate_stats : Device → Loopback → Option (Device × Loopback)
calculate_stats dev gb =
    let lat = nsec_to_usec_latency gb.elapsed_nsecs in
    elim (throughput_of dev.type dev.size lat) [
      | none ↦ none
      | some rate ↦ elim (requests_of lat) [
        | none ↦ none
        | some rps ↦
            let (d, g) = add latencies_gb (sub64 gb.elapsed_nsecs gb.elapsed_nsecs_gb % 2 ^ 32) (
              add requests rps
                (add_some throughputs rate (add latencies lat (dev.stats, gb.stats)))) in
            some (
              record dev { stats = d },
              record gb { stats = g; kfifo_lat = gb.kfifo_lat ++ lat ∷ [] },
            )
      ]
    ]

abbrev pub reset_group : Group
reset_group = record {
  latency = reset;
  latency_gb = reset;
  throughput = reset;
  requests_per_second = reset;
}

-- gb_loopback_reset_stats
unfoldable pub reset_stats : Device → Device
reset_stats dev = record dev {
  stats = reset_group;
  list = map (λ (gb : Loopback). record gb { stats = reset_group }) dev.list;
}

-- gb_loopback_check_attr, where the latency samples stand for the two queues of a connection.
unfoldable pub check_attr : Device → Device
check_attr dev =
    let checked = record dev {
      ms_wait = if ltb ms_wait_max dev.ms_wait then ms_wait_max else dev.ms_wait;
      size = if ltb dev.size_max dev.size then dev.size_max else dev.size;
      iteration_count = 0;
      error = 0;
      list =
          map (λ (gb : Loopback). record gb { iteration_count = 0; error = 0; kfifo_lat = [] })
            dev.list;
    } in
    if (dev.type == type_ping) || (dev.type == type_transfer) || (dev.type == type_sink)
    then reset_stats checked
    else record checked { type = 0 }

-- The `memcpy` of a transfer request's bytes into a response of as many bytes.
unfoldable pub copy_transfer : ℕ → List ℕ → Option (List ℕ)
copy_transfer len bytes = if ltb (length bytes) len then none else some (take len bytes)

-- gb_loopback_request_recv on the payload of a request: the result and the payload of the response.
unfoldable pub request_recv : Bool → ℕ → ℕ → List ℕ → Option (Errno × List ℕ)
request_recv has_memory size_max type payload =
    if (type == type_ping) || (type == type_sink)
    then some (success, [])
    else if type == type_transfer
    then transfer payload
    else some (einval, [])
  where
    transfer : List ℕ → Option (Errno × List ℕ)
    transfer (a ∷ b ∷ c ∷ d ∷ bytes) =
        let len = le32 a b c d in
        if ltb size_max len
        then some (einval, [])
        else if len == 0
        then some (success, [])
        else if not has_memory
        then some (enomem, [])
        else elim (copy_transfer len bytes) [
          | none ↦ none
          | some response ↦ some (success, response)
        ]
    transfer short = some (einval, [])
