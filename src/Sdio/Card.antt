-- ===== src/Sdio/Card.antt =====
-- The requests of the MMC core to the SDIO driver, sdio.c: commands, and the work on a request.
use Prim.Native.Nat.{bit_and}
use greybus.Base.{
  ℕ, Bool, true, false, Option, none, some, List, [], ◌∷◌, ◌%◌, ◌==◌, not, if◌then◌else◌, drop,
  get_or,
}
use greybus.Base.Monad.{Call, pure, ◌>>=◌}
use greybus.Base.Bytes.{byte0, byte1, byte2, byte3, le32}
use greybus.Errno.{Errno, einval, eshutdown, other, is_success}
use greybus.Sync.{Serve, operation_sync}
use greybus.Sdio.{Host, Data, transfer}
use greybus.Sdio.Kind

-- mmc_resp_type and mmc_cmd_type, of the kernel.
pub data RspType : Type 0 where
  no_rsp r1 r1b r2 r3 other_rsp : RspType

pub data CmdType : Type 0 where
  bc bcr ac adtc other_cmd : CmdType

-- `struct mmc_command`, of the kernel.
pub record Command : Type 0 where
  pub opcode : ℕ
  pub arg : ℕ
  pub rsp_type : RspType
  pub cmd_type : CmdType
  pub resp : List ℕ
  pub error : Errno

-- The flags GB_SDIO_RSP_*; `none` for a type that is not known.
unfoldable pub cmd_flags : RspType → Option ℕ
cmd_flags no_rsp = some 0x00
cmd_flags r1 = some 0x15
cmd_flags r1b = some 0x1d
cmd_flags r2 = some 0x07
cmd_flags r3 = some 0x01
cmd_flags other_rsp = none

-- GB_SDIO_CMD_*
unfoldable pub type_number : CmdType → Option ℕ
type_number ac = some 0x00
type_number adtc = some 0x01
type_number bc = some 0x02
type_number bcr = some 0x03
type_number other_cmd = none

-- The word at the start of some bytes.
abbrev pub word : List ℕ → ℕ
word bytes = le32 (get_or bytes 0 0) (get_or bytes 1 0) (get_or bytes 2 0) (get_or bytes 3 0)

-- What a command takes from its response: the tests are on the bits of its flags.
unfoldable pub take_response : ℕ → List ℕ → Command → Command
take_response flags response c =
    if not (bit_and flags 0x00 == 0)
    then c
    else if not (bit_and flags 0x07 == 0)
    then record c {
      resp =
          word response
          ∷ word (drop 4 response)
          ∷ word (drop 8 response)
          ∷ word (drop 12 response)
          ∷ [];
    }
    else record c { resp = word response ∷ drop 1 c.resp }

-- The part of gb_sdio_command that asks, and its end.
unfoldable pub ask_command : {R : Type 0} → Serve R → ℕ → ℕ → Call (Command × R) Errno
ask_command serve flags type (c, r) =
    let request =
      c.opcode % 256 ∷ flags ∷ type ∷ byte0 c.arg ∷ byte1 c.arg ∷ byte2 c.arg ∷ byte3 c.arg ∷ [] in
    (operation_sync serve Kind.command request 16 >>= λ (ret, response) (c, r). some (
      ret,
      (record (if is_success ret then take_response flags response c else c) { error = ret }, r),
    ))
      (c, r)

-- gb_sdio_command
unfoldable pub command : {R : Type 0} → Serve R → Call (Command × R) Errno
command serve (c, r) = elim (cmd_flags c.rsp_type) [
  | none ↦ some (einval, (record c { error = einval }, r))
  | some flags ↦ elim (type_number c.cmd_type) [
    | none ↦ some (einval, (record c { error = einval }, r))
    | some type ↦ ask_command serve flags type (c, r)
  ]
]

-- `struct mmc_request`, of the kernel; `data` is what it transfers.
pub record Mrq : Type 0 where
  pub sbc : Option Command
  pub cmd : Command
  pub transfer : Option Data
  pub stop : Option Command

-- The host, the request at work, and those that mmc_request_done was told of, the last first.
pub record Card : Type 0 where
  pub host : Host
  pub mrq : Option Mrq
  pub finished : List Mrq

module _ {R : Type 0} (serve : Serve R) (stops : ℕ → Bool) (fuel : ℕ) where
  -- The steps of gb_sdio_mrq_work, each of which ends the work if it fails. Each returns whether to go
  -- on.
  unfoldable pub do_sbc : Call ((Host × Mrq) × R) Bool
  do_sbc ((h, m), r) = elim m.sbc [
    | none ↦ some (true, ((h, m), r))
    | some c ↦ elim (command serve (c, r)) [
      | none ↦ none
      | some (ret, (c, r)) ↦ some (is_success ret, ((h, record m { sbc = some c }), r))
    ]
  ]

  unfoldable pub do_cmd : Call ((Host × Mrq) × R) Bool
  do_cmd ((h, m), r) = elim (command serve (m.cmd, r)) [
    | none ↦ none
    | some (ret, (c, r)) ↦ some (is_success ret, ((h, record m { cmd = c }), r))
  ]

  unfoldable pub do_data : Call ((Host × Mrq) × R) Bool
  do_data ((h, m), r) = elim m.transfer [
    | none ↦ some (true, ((h, m), r))
    | some d ↦ elim (transfer serve stops fuel ((h, d), r)) [
      | none ↦ none
      | some (ret, ((h, d), r)) ↦ some (is_success ret, ((h, record m { transfer = some d }), r))
    ]
  ]

  unfoldable pub do_stop : Call ((Host × Mrq) × R) Bool
  do_stop ((h, m), r) = elim m.stop [
    | none ↦ some (true, ((h, m), r))
    | some c ↦ elim (command serve (c, r)) [
      | none ↦ none
      | some (ret, (c, r)) ↦ some (is_success ret, ((h, record m { stop = some c }), r))
    ]
  ]

  -- A step that follows if the one before went well.
  unfoldable pub go_on : Call ((Host × Mrq) × R) Bool → Bool → Call ((Host × Mrq) × R) Bool
  go_on k true = k
  go_on k false = pure false

  unfoldable pub do_all : Call ((Host × Mrq) × R) Bool
  do_all = do_sbc >>= go_on do_cmd >>= go_on do_data >>= go_on do_stop

  -- gb_sdio_mrq_work
  unfoldable pub mrq_work : Call (Card × R) (Unit {0})
  mrq_work (k, r) = elim k.mrq [
    | none ↦ some (tt, (k, r))
    | some m ↦
        if k.host.removed
        then (let failed = record m { cmd = record (m.cmd) { error = eshutdown } } in
            some (tt, (record k { mrq = none; finished = failed ∷ k.finished }, r)))
        else elim (do_all ((k.host, m), r)) [
          | none ↦ none
          | some (_, ((h, m), r)) ↦
              some (tt, (record { host = h; mrq = none; finished = m ∷ k.finished }, r))
        ]
  ]

-- MMC_STOP_TRANSMISSION, and -ENOMEDIUM, of the kernel.
abbrev pub mmc_stop_transmission : ℕ
mmc_stop_transmission = 12

abbrev pub enomedium : Errno
enomedium = other 123

-- gb_mmc_request; it returns whether the work is queued.
unfoldable pub request : Mrq → Card → Bool × Card
request m k =
    let h =
      if m.cmd.opcode == mmc_stop_transmission
      then record (k.host) { xfer_stop = true }
      else k.host in
    if h.removed
    then (let failed = record m { cmd = record (m.cmd) { error = eshutdown } } in
        (false, record { host = h; mrq = none; finished = failed ∷ k.finished }))
    else if not h.card_present
    then (let failed = record m { cmd = record (m.cmd) { error = enomedium } } in
        (false, record { host = h; mrq = none; finished = failed ∷ k.finished }))
    else (true, record { host = h; mrq = some m; finished = k.finished })
