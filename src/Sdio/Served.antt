-- ===== src/Sdio/Served.antt =====
-- The SDIO driver finishes each request of the MMC core once.
use Prim.Native.Nat.{bit_and}
use greybus.Base.{
  ℕ, ◌*◌, ◌^◌, ◌<◌, ◌≡◌, refl, Bool, true, false, none, some, List, ◌∷◌, inl, inr, Bool-cases,
  Option-cases, ◌==◌, not, if◌then◌else◌, sym, ◌∙◌, subst,
}
use greybus.Base.Monad.{Returns, bind, inside, pure}
use greybus.Errno.{Errno, is_success}
use greybus.Sync.{Serve, operation_sync}
use greybus.Sdio.{Host, Data, transfer}
use greybus.Sdio.Ended.{Fits}
use greybus.Sdio.Written.{transfer-Ended}
use greybus.Sdio.Card.{
  Command, Mrq, Card, cmd_flags, type_number, take_response, ask_command, command, do_sbc, do_cmd,
  do_data, do_stop, go_on, do_all, mrq_work, request, mmc_stop_transmission,
}

take_response-opcode :
    (flags : ℕ) (response : List ℕ) (c : Command)
    → (take_response flags response c).opcode ≡ c.opcode
unfolding take_response
take_response-opcode flags response c = elim (Bool-cases (not (bit_and flags 0x00 == 0))) [
  | inl y ↦ rw y refl
  | inr n ↦ elim (Bool-cases (not (bit_and flags 0x07 == 0))) [
    | inl y ↦ rw (n, y) refl
    | inr m ↦ rw (n, m) refl
  ]
]

taken :
    (flags : ℕ) (c : Command) (x : Errno × List ℕ)
    → (if is_success x.0 then take_response flags x.1 c else c).opcode ≡ c.opcode
taken flags c (e, response) = elim (Bool-cases (is_success e)) [
  | inl y ↦ rw y (take_response-opcode flags response c)
  | inr n ↦ rw n refl
]

-- A command that was answered has the result as its error.
abbrev Asked : {R : Type 0} → Command → Errno → Command × R → Type 0
Asked c e s = (s.0.error ≡ e) × (s.0.opcode ≡ c.opcode)

ask_command-Asked :
    {R : Type 0} (serve : Serve R) (flags type : ℕ) (c : Command) (r : R)
    → Returns (Asked c) (ask_command serve flags type (c, r))
unfolding ask_command operation_sync
ask_command-Asked serve flags type c r = (refl, taken flags c _)

command-Asked :
    {R : Type 0} (serve : Serve R) (c : Command) (r : R) → Returns (Asked c) (command serve (c, r))
unfolding command
command-Asked serve c r = elim (Option-cases (cmd_flags c.rsp_type)) [
  | inl n ↦ rw (n, command) (refl, refl)
  | inr (flags, e) ↦ elim (Option-cases (type_number c.cmd_type)) [
    | inl n ↦ rw (e, n, command) (refl, refl)
    | inr (type, e') ↦ rw (e, e', command) (ask_command-Asked serve flags type c r)
  ]
]

-- The data of a request can be transferred with this fuel.
unfoldable pub HasRoom : ℕ → Host → Mrq → Type 0
HasRoom fuel h m =
    (d : Data)
    → m.transfer ≡ some d
    → (d.blksz * d.blocks < 2 ^ 32) × ((d.blocks < fuel) × Fits h d)

module _ {R : Type 0} (serve : Serve R) (stops : ℕ → Bool) (fuel : ℕ) (h : Host) (m : Mrq) where
  -- The state before the data is transferred.
  abbrev Before : Bool → (Host × Mrq) × R → Type 0
  Before _ s = (s.0.0 ≡ h) × ((s.0.1.transfer ≡ m.transfer) × (s.0.1.cmd.opcode ≡ m.cmd.opcode))

  abbrev Same : Bool → (Host × Mrq) × R → Type 0
  Same _ s = s.0.1.cmd.opcode ≡ m.cmd.opcode

  do_sbc-Before : (r : R) → Returns Before (do_sbc serve stops fuel ((h, m), r))
  unfolding do_sbc
  do_sbc-Before r = elim (Option-cases m.sbc) [
    | inl n ↦ rw n (refl, (refl, refl))
    | inr (c, e) ↦ rw e (
        inside _ _ (command serve (c, r)) _ (command-Asked serve c r) λ _ _ _. (refl, (refl, refl)))
  ]

  do_cmd-Before :
      (m' : Mrq) (r : R)
      → Before true ((h, m'), r)
      → Returns Before (do_cmd serve stops fuel ((h, m'), r))
  unfolding do_cmd
  do_cmd-Before m' r (_, (t, o)) =
      inside _ _ (command serve (m'.cmd, r)) _ (command-Asked serve m'.cmd r)
        λ _ _ asked. (refl, (t, asked.1 ∙ o))

  do_data-Same :
      (m' : Mrq) (r : R)
      → HasRoom fuel h m
      → Before true ((h, m'), r)
      → Returns Same (do_data serve stops fuel ((h, m'), r))
  unfolding do_data HasRoom
  do_data-Same m' r room (_, (t, o)) = elim (Option-cases m'.transfer) [
    | inl n ↦ rw n o
    | inr (d, e) ↦ rw e (
        let (small, (lt, f)) = room d (sym t ∙ e) in
        inside _ _ (transfer serve stops fuel ((h, d), r)) _
          (transfer-Ended serve stops fuel h d r small lt f) λ _ _ _. o)
  ]

  do_stop-Same :
      (h' : Host) (m' : Mrq) (r : R)
      → m'.cmd.opcode ≡ m.cmd.opcode
      → Returns Same (do_stop serve stops fuel ((h', m'), r))
  unfolding do_stop
  do_stop-Same h' m' r o = elim (Option-cases m'.stop) [
    | inl n ↦ rw n o
    | inr (c, e) ↦ rw e (inside _ _ (command serve (c, r)) _ (command-Asked serve c r) λ _ _ _. o)
  ]

  then_cmd :
      (b : Bool) (s : (Host × Mrq) × R)
      → Before b s
      → Returns Before (go_on serve stops fuel (do_cmd serve stops fuel) b s)
  unfolding go_on
  then_cmd true ((h', m'), r') (e, x) =
      subst (λ h''. Returns Before (do_cmd serve stops fuel ((h'', m'), r'))) (sym e)
        (do_cmd-Before m' r' (refl, x))
  then_cmd false s x = x

  then_data :
      (b : Bool) (s : (Host × Mrq) × R)
      → HasRoom fuel h m
      → Before b s
      → Returns Same (go_on serve stops fuel (do_data serve stops fuel) b s)
  unfolding go_on
  then_data true ((h', m'), r') room (e, x) =
      subst (λ h''. Returns Same (do_data serve stops fuel ((h'', m'), r'))) (sym e)
        (do_data-Same m' r' room (refl, x))
  then_data false s room x = x.1.1

  then_stop :
      (b : Bool) (s : (Host × Mrq) × R)
      → Same b s
      → Returns Same (go_on serve stops fuel (do_stop serve stops fuel) b s)
  unfolding go_on
  then_stop true ((h', m'), r') o = do_stop-Same h' m' r' o
  then_stop false s o = o

  do_all-Same : (r : R) → HasRoom fuel h m → Returns Same (do_all serve stops fuel ((h, m), r))
  unfolding do_all
  do_all-Same r room =
      bind Same Same _ _
        (bind Before Same _ _ (bind Before Before _ _ (do_sbc-Before r) then_cmd)
          λ b s x. then_data b s room x)
        then_stop

-- The host after a request came: a stop also stops the transfer at work.
abbrev pub stopped : Mrq → Host → Host
stopped m h = if m.cmd.opcode == mmc_stop_transmission then record h { xfer_stop = true } else h

-- One more request was finished, for a command with the given opcode, and none is at work.
pub record FinishedOne (m : Mrq) (k k' : Card) : Type 0 where
  pub idle : k'.mrq ≡ none
  pub done : (m' : Mrq) × ((k'.finished ≡ m' ∷ k.finished) × (m'.cmd.opcode ≡ m.cmd.opcode))

module _ {R : Type 0} (serve : Serve R) (stops : ℕ → Bool) (fuel : ℕ) where
  mrq_work-FinishedOne :
      (m : Mrq) (h : Host) (k : Card) (r : R)
      → HasRoom fuel h m
      → Returns
          (λ _ s. FinishedOne m k s.0)
          (mrq_work serve stops fuel (record { host = h; mrq = some m; finished = k.finished }, r))
  unfolding mrq_work do_all do_sbc
  mrq_work-FinishedOne m h k r room = elim (Bool-cases h.removed) [
    | inl y ↦ rw y (record { idle = refl; done = (_, (refl, refl)) })
    | inr n ↦ rw n (
        inside _ _ (do_all serve stops fuel ((h, m), r)) _ (do_all-Same serve stops fuel h m r room)
          λ _ s o. record { idle = refl; done = (s.0.1, (refl, o)) })
  ]

  -- Each request of the MMC core, whose data has blocks that fit in one piece, is finished exactly once,
  -- at once or by the work that is queued for it, whatever is answered and whenever a stop is asked for.
  pub request-FinishedOne :
      (m : Mrq) (k : Card) (r : R)
      → HasRoom fuel (stopped m k.host) m
      → Returns
          (λ _ s. FinishedOne m k s.0)
          (let (queued, k') = request m k in
            if queued then mrq_work serve stops fuel (k', r) else pure tt (k', r))
  unfolding request
  request-FinishedOne m k r room = elim (Bool-cases (stopped m k.host).removed) [
    | inl y ↦ rw y (record { idle = refl; done = (_, (refl, refl)) })
    | inr n ↦ elim (Bool-cases (stopped m k.host).card_present) [
      | inl p ↦ rw (n, p) (mrq_work-FinishedOne m (stopped m k.host) k r room)
      | inr a ↦ rw (n, a) (record { idle = refl; done = (_, (refl, refl)) })
    ]
  ]
