-- ===== src/Sdio/Tests.antt =====
-- A card that is written, with pieces of at most 600 bytes, and one whose blocks are too large.
use greybus.Base.{
  ℕ, ◌≡◌, ◌<◌, ◌+◌, ◌*◌, ◌^◌, ◌++◌, refl, Bool, true, false, some, none, List, [], ◌∷◌,
  if◌then◌else◌, arith, take, drop, replicate, map, subst, ap,
}
use greybus.Base.Monad.{Returns, pure}
use greybus.Errno.{Errno, success, is_success}
use greybus.Sync.{Serve, answered}
use greybus.Sdio.{Host, Data, Going, transfer, transfer_loop, process_events}
use greybus.Sdio.Ended.{Fits}
use greybus.Sdio.Written.{transfer-Ended, transfer_written}
use greybus.Sdio.Endless.{nothing, transfer_loop_endless}
use greybus.Sdio.Card.{Mrq, Card, Command, r1, adtc, request, mrq_work}
use greybus.Sdio.Served.{FinishedOne, HasRoom, request-FinishedOne}
use greybus.Sdio.Setup.{new_host, receive_all}
use greybus.Sdio.Events.{
  Sent, inserted, removed, write_protected, number, present, process_events-receive_all,
}

abbrev host : Host
host = record new_host { data_max = 600; removed = false; card_present = true }

abbrev blocks_of_two : Data
blocks_of_two = record {
  opcode = 25;
  blksz = 2;
  blocks = 3;
  flags = 256;
  bytes = 1 ∷ 2 ∷ 3 ∷ 4 ∷ 5 ∷ 6 ∷ [];
  bytes_xfered = 0;
  error = success;
}

host-Fits : Fits host blocks_of_two
host-Fits = record { some_byte = ground arith; one_piece = ground arith; small = ground arith }

-- The other end keeps what comes behind the requests, and answers that it took the three blocks.
abbrev serve : Serve (List ℕ)
serve kind payload log = (answered success (3 ∷ 0 ∷ 2 ∷ 0 ∷ []), log ++ drop 5 payload)

abbrev quiet : ℕ → Bool
quiet _ = false

transfer-Ended_example :
    Returns {S = Going (List ℕ)} {A = Errno}
      (λ e s. (s.0.1.error ≡ e) × (is_success e ≡ true → s.0.1.bytes_xfered ≡ 0 + 2 * 3))
      (transfer serve quiet 4 ((host, blocks_of_two), []))
transfer-Ended_example =
    transfer-Ended serve quiet 4 host blocks_of_two [] (ground arith) (ground arith) host-Fits

transfer_written_example :
    Returns {S = Going (List ℕ)} {A = Errno}
      (λ e s. is_success e ≡ true → s.1 ≡ [] ++ take (2 * 3) blocks_of_two.bytes)
      (transfer serve quiet 4 ((host, blocks_of_two), []))
transfer_written_example =
    transfer_written serve quiet (λ log. log) (λ payload log. refl) 4 host blocks_of_two []
      (ground arith) (ground arith) host-Fits refl

abbrev large : Data
large = record blocks_of_two { blksz = 601 }

abbrev idle : Serve (List ℕ)
idle kind payload log = (answered success nothing, log)

transfer_loop_endless_example : transfer_loop idle (λ _. false) 9 1803 0 ((host, large), []) ≡ none
transfer_loop_endless_example =
    transfer_loop_endless idle (λ payload r. refl) 9 1803 0 host large [] (ground arith)
      (ground arith) refl refl

abbrev write_command : Command
write_command = record {
  opcode = 25;
  arg = 7;
  rsp_type = r1;
  cmd_type = adtc;
  resp = replicate 4 0;
  error = success;
}

abbrev write : Mrq
write = record { sbc = none; cmd = write_command; transfer = some blocks_of_two; stop = none }

abbrev card : Card
card = record { host = host; mrq = none; finished = [] }

write-HasRoom : HasRoom 4 host write
unfolding HasRoom
write-HasRoom d e =
    subst (λ d. (d.blksz * d.blocks < 2 ^ 32) × ((d.blocks < 4) × Fits host d))
      (ap (λ o. elim o [ none ↦ blocks_of_two | some d ↦ d ]) e)
      (ground arith, (ground arith, host-Fits))

request-FinishedOne_example :
    Returns
      (λ _ s. FinishedOne write card s.0)
      (let (queued, k') = request write card in
        if queued then mrq_work serve quiet 4 (k', []) else pure tt (k', []))
request-FinishedOne_example = request-FinishedOne serve quiet 4 write card [] write-HasRoom

abbrev events : List Sent
events = inserted ∷ write_protected ∷ removed ∷ inserted ∷ []

process_events-receive_all_example :
    (let queued = receive_all (map number events) new_host in
      (process_events queued.queued_events (record queued { removed = false })).card_present)
    ≡ present new_host.card_present events
process_events-receive_all_example = process_events-receive_all events new_host refl refl refl
