-- ===== src/Sdio.antt =====
-- The SDIO driver, sdio.c: its host, the events of the card, and the transfer of data in pieces.
pub mod Kind
pub mod Rounds
pub mod Ended
pub mod Written
pub mod Endless
pub mod Card
pub mod Served
pub mod Setup
pub mod Events
mod Tests
use Prim.Native.Nat.{bit_and, bit_or}
use greybus.Base.{
  ℕ, zero, suc, min, Bool, true, false, Option, none, some, List, [], ◌∷◌, ◌++◌, ◌+◌, ◌*◌, ◌-◌, ◌/◌,
  ◌%◌, ◌^◌, ◌==◌, ◌||◌, ◌&&◌, not, ltb, if◌then◌else◌, get_or, length, take, drop,
}
use greybus.Base.Monad.{Call, pure, ◌>>=◌}
use greybus.Errno.{Errno, success, einval, eintr, etimedout, is_success}
use greybus.Operation.Message.{low, high, le16}
use greybus.Sync.{Serve, operation_sync}
use greybus.Sdio.Kind

-- `struct gb_sdio_host`, and of the kernel's host whether its card can be removed, the largest block,
-- the number of blocks and the voltages. `changes` counts the calls of mmc_detect_change.
pub record Host : Type 0 where
  pub data_max : ℕ
  pub xfer_stop : Bool
  pub queued_events : ℕ
  pub removed : Bool
  pub card_present : Bool
  pub read_only : Bool
  pub removable : Bool
  pub max_blk_size : ℕ
  pub max_blk_count : ℕ
  pub ocr_avail : ℕ
  pub changes : ℕ

-- `x & m`, as a truth value.
abbrev pub has_bits : ℕ → ℕ → Bool
has_bits m x = not (bit_and x m == 0)

-- `x & ~m`, for a byte.
abbrev pub without : ℕ → ℕ → ℕ
without m x = x - bit_and x m

-- _gb_queue_event
unfoldable pub queue_event : ℕ → Host → Host
queue_event event h =
    let queued =
      if has_bits Kind.card_inserted event
      then without Kind.card_removed h.queued_events
      else if has_bits Kind.card_removed event
      then without Kind.card_inserted h.queued_events
      else h.queued_events in
    record h { queued_events = bit_or queued event }

-- The two tests of _gb_sdio_process_events; `none` is its early return. The flag is state_changed.
unfoldable pub insert_card : ℕ → Host × Bool → Option (Host × Bool)
insert_card event (h, changed) =
    if has_bits Kind.card_inserted event
    then if not h.removable || h.card_present
      then none
      else some (record h { card_present = true }, true)
    else some (h, changed)

unfoldable pub remove_card : ℕ → Host × Bool → Option (Host × Bool)
remove_card event (h, changed) =
    if has_bits Kind.card_removed event
    then if not h.removable || not h.card_present
      then none
      else some (record h { card_present = false }, true)
    else some (h, changed)

unfoldable pub settle_event : ℕ → Host × Bool → Host
settle_event event (h, changed) = record h {
  read_only = h.read_only || has_bits Kind.write_protected event;
  changes = if changed then h.changes + 1 else h.changes;
}

-- _gb_sdio_process_events; a card that both comes and goes was put in and taken out before the second
-- return, if that is one.
unfoldable pub process_events : ℕ → Host → Host
process_events event h = elim (insert_card event (h, false)) [
  | none ↦ h
  | some (h', changed) ↦ elim (remove_card event (h', changed)) [
    | none ↦ h'
    | some x ↦ settle_event event x
  ]
]

-- gb_sdio_event_recv
unfoldable pub event_recv : ℕ → List ℕ → Host → Errno × Host
event_recv type payload h =
    if type == Kind.event
    then if ltb (length payload) 1
      then (einval, h)
      else if h.removed
      then (success, queue_event (get_or payload 0 0) h)
      else (success, process_events (get_or payload 0 0) h)
    else (einval, h)

-- `struct mmc_data`, of the kernel, with the opcode of its command; the scatter list is its bytes.
pub record Data : Type 0 where
  pub opcode : ℕ
  pub blksz : ℕ
  pub blocks : ℕ
  pub flags : ℕ
  pub bytes : List ℕ
  pub bytes_xfered : ℕ
  pub error : Errno

-- What the fixed part of a transfer's request holds.
unfoldable pub transfer_request : Data → ℕ → List ℕ
transfer_request d nblocks =
    d.flags / 256 % 256 ∷ low nblocks ∷ high nblocks ∷ low d.blksz ∷ high d.blksz ∷ []

-- The bytes that a response claims to have handled.
unfoldable pub claimed : List ℕ → ℕ
claimed response =
    le16 (get_or response 2 0) (get_or response 3 0)
    * le16 (get_or response 0 0) (get_or response 1 0)

-- sg_pcopy_from_buffer: as many bytes as there is room for behind `skip`.
unfoldable pub copy_in : ℕ → List ℕ → List ℕ → List ℕ
copy_in skip chunk bytes =
    take skip bytes ++ take (length bytes - skip) chunk ++ drop (skip + length chunk) bytes

-- `data->flags & MMC_DATA_READ`, which is the tenth bit.
abbrev pub is_read : Data → Bool
is_read d = d.flags / 512 % 2 == 1

-- The blocks that a round of gb_sdio_transfer takes.
abbrev pub round_blocks : Host → Data → ℕ → ℕ
round_blocks h d left = min left h.data_max / d.blksz % 2 ^ 16

abbrev pub Going : Type 0 → Type 0
Going R = (Host × Data) × R

module _ {R : Type 0} (serve : Serve R) where
  -- _gb_sdio_send
  unfoldable pub send : ℕ → ℕ → ℕ → Call (Going R) Errno
  send len nblocks skip ((h, d), r) =
      let chunk = take len (drop skip d.bytes) in
      if length chunk == len
      then (operation_sync serve Kind.transfer (transfer_request d nblocks ++ chunk) 4
            >>= λ (ret, response).
                pure
                  (if is_success ret then if len == claimed response then ret else einval else ret))
          ((h, d), r)
      else some (einval, ((h, d), r))

  -- The end of _gb_sdio_recv: the data behind the response goes to the scatter list.
  unfoldable pub take_in : ℕ → ℕ → List ℕ → Call (Going R) Errno
  take_in len skip response ((h, d), r) =
      if len == claimed response
      then some (
        if ltb (length d.bytes) (skip + len) then einval else success,
        ((h, record d { bytes = copy_in skip (take len (drop 4 response)) d.bytes }), r),
      )
      else some (einval, ((h, d), r))

  -- _gb_sdio_recv
  unfoldable pub recv : ℕ → ℕ → ℕ → Call (Going R) Errno
  recv len nblocks skip ((h, d), r) =
      (operation_sync serve Kind.transfer (transfer_request d nblocks) (len + 4)
          >>= λ (ret, response). if is_success ret then take_in len skip response else pure ret)
        ((h, d), r)

  -- One piece of a transfer, in its direction.
  unfoldable pub piece : ℕ → ℕ → ℕ → Call (Going R) Errno
  piece len nblocks skip ((h, d), r) =
      if is_read d then recv len nblocks skip ((h, d), r) else send len nblocks skip ((h, d), r)

  -- The loop of gb_sdio_transfer, on fuel: `none` is that it ran out. `stops left` is whether another
  -- thread asks for a stop before the round with so many bytes left.
  unfoldable pub transfer_loop : (ℕ → Bool) → ℕ → ℕ → ℕ → Call (Going R) Errno
  transfer_loop stops zero left skip s = none
  transfer_loop stops (suc fuel) left skip ((h, d), r) =
      if left == 0
      then some (success, ((h, d), r))
      else if h.xfer_stop || stops left
      then some (eintr, ((record h { xfer_stop = false }, d), r))
      else let nblocks = round_blocks h d left in
        let len = nblocks * d.blksz in
        elim (piece len nblocks skip ((h, d), r)) [
          | none ↦ none
          | some (ret, ((h', d'), r')) ↦ elim (is_success ret) [
            | false ↦ some (ret, ((h', d'), r'))
            | true ↦
                transfer_loop stops fuel (left - len) (skip + len)
                  ((h', record d' { bytes_xfered = d'.bytes_xfered + len }), r')
          ]
        ]

  -- gb_sdio_transfer
  unfoldable pub transfer : (ℕ → Bool) → ℕ → Call (Going R) Errno
  transfer stops fuel ((h, d), r) =
      if Kind.is_single d.opcode && ltb 1 d.blocks
      then some (etimedout, ((h, record d { error = etimedout }), r))
      else elim (transfer_loop stops fuel (d.blksz * d.blocks % 2 ^ 32) 0 ((h, d), r)) [
        | none ↦ none
        | some (ret, ((h', d'), r')) ↦ some (ret, ((h', record d' { error = ret }), r'))
      ]
