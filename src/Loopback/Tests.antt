-- ===== src/Loopback/Tests.antt =====
-- Three values, and requests of the module.
use greybus.Base.{◌≡◌, refl, true, none, some, [], ◌∷◌, arith}
use greybus.Errno.{success}
use greybus.Loopback.{
  update_stats, request_recv, copy_transfer, calculate_stats, throughput_of, aggregate_size,
  nsec_to_usec_latency, Device, Loopback, reset_group, type_ping,
}
use greybus.Loopback.Summary.{collect, IsSummary, collect-IsSummary}

three : collect (7 ∷ 3 ∷ 9 ∷ []) ≡ record { min = 3; max = 9; sum = 19; count = 3 }
unfolding update_stats
three = refl

echo : request_recv true 100 3 (2 ∷ 0 ∷ 0 ∷ 0 ∷ 8 ∷ 9 ∷ []) ≡ some (success, 8 ∷ 9 ∷ [])
unfolding request_recv copy_transfer
echo = refl

-- A request that claims more than it holds.
over_read : request_recv true 100 3 (5 ∷ 0 ∷ 0 ∷ 0 ∷ 8 ∷ 9 ∷ []) ≡ none
unfolding request_recv copy_transfer
over_read = refl

abbrev con : Loopback
con = record {
  stats = reset_group;
  kfifo_lat = [];
  elapsed_nsecs = 900;
  elapsed_nsecs_gb = 0;
  iteration_count = 0;
  error = 0;
}

abbrev dev : Device
dev = record {
  stats = reset_group;
  type = type_ping;
  size = 0;
  size_max = 100;
  ms_wait = 0;
  iteration_count = 0;
  error = 0;
  list = con ∷ [];
}

-- An operation of less than a microsecond.
too_fast : calculate_stats dev con ≡ none
unfolding calculate_stats throughput_of aggregate_size nsec_to_usec_latency
too_fast = refl

collect-IsSummary_example : IsSummary (7 ∷ 3 ∷ 9 ∷ []) (collect (7 ∷ 3 ∷ 9 ∷ []))
collect-IsSummary_example =
    collect-IsSummary (7 ∷ 3 ∷ 9 ∷ []) (ground arith, (ground arith, (ground arith, tt)))
