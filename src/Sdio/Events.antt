-- ===== src/Sdio/Events.antt =====
-- The events of an SDIO card that come while its host is set up.
use greybus.Base.{
  ℕ, ◌≡◌, refl, Bool, true, false, Option, none, some, List, [], ◌∷◌, ◌∙◌, ◌||◌, map, ap, arith,
}
use greybus.Sdio.{
  Host, queue_event, process_events, insert_card, remove_card, settle_event, event_recv,
}
use greybus.Sdio.Kind
use greybus.Sdio.Setup.{receive_all}

-- The events that a module sends.
pub data Sent : Type 0 where
  inserted removed write_protected : Sent

abbrev pub number : Sent → ℕ
number inserted = Kind.card_inserted
number removed = Kind.card_removed
number write_protected = Kind.write_protected

-- Whether the card is there after the events: as the last that says so has it.
abbrev pub present : Bool → List Sent → Bool
present b [] = b
present b (inserted ∷ es) = present true es
present b (removed ∷ es) = present false es
present b (write_protected ∷ es) = present b es

-- The events that are queued: the card's last, and the write protection.
abbrev bits : Option Bool → Bool → ℕ
bits none false = 0
bits none true = 4
bits (some true) false = 1
bits (some true) true = 5
bits (some false) false = 2
bits (some false) true = 6

abbrev later : Sent → Option Bool → Option Bool
later inserted c = some true
later removed c = some false
later write_protected c = c

abbrev is_wp : Sent → Bool
is_wp write_protected = true
is_wp _ = false

queue_event_lem :
    (e : Sent) (c : Option Bool) (w : Bool) (h : Host)
    → queue_event (number e) (record h { queued_events = bits c w })
      ≡ record h { queued_events = bits (later e c) (w || is_wp e) }
unfolding queue_event
queue_event_lem inserted none false h = refl
queue_event_lem inserted none true h = refl
queue_event_lem inserted (some true) false h = refl
queue_event_lem inserted (some true) true h = refl
queue_event_lem inserted (some false) false h = refl
queue_event_lem inserted (some false) true h = refl
queue_event_lem removed none false h = refl
queue_event_lem removed none true h = refl
queue_event_lem removed (some true) false h = refl
queue_event_lem removed (some true) true h = refl
queue_event_lem removed (some false) false h = refl
queue_event_lem removed (some false) true h = refl
queue_event_lem write_protected none false h = refl
queue_event_lem write_protected none true h = refl
queue_event_lem write_protected (some true) false h = refl
queue_event_lem write_protected (some true) true h = refl
queue_event_lem write_protected (some false) false h = refl
queue_event_lem write_protected (some false) true h = refl

abbrev last_card : Option Bool → List Sent → Option Bool
last_card c [] = c
last_card c (e ∷ es) = last_card (later e c) es

abbrev any_wp : Bool → List Sent → Bool
any_wp w [] = w
any_wp w (e ∷ es) = any_wp (w || is_wp e) es

receive_all_lem :
    (es : List Sent) (c : Option Bool) (w : Bool) (h : Host)
    → receive_all (map number es) (record h { removed = true; queued_events = bits c w })
      ≡ record h { removed = true; queued_events = bits (last_card c es) (any_wp w es) }
unfolding receive_all event_recv
receive_all_lem [] c w h = refl
receive_all_lem (e ∷ es) c w h =
    ap (receive_all (map number es)) (queue_event_lem e c w (record h { removed = true }))
    ∙ receive_all_lem es (later e c) (w || is_wp e) h

abbrev settled : Option Bool → Bool → Bool
settled none b = b
settled (some b) _ = b

process_events_lem :
    (c : Option Bool) (w b : Bool) (h : Host)
    → h.removable ≡ true
    → h.card_present ≡ b
    → (process_events (bits c w) h).card_present ≡ settled c b
unfolding process_events insert_card remove_card settle_event
process_events_lem none false b h r p = p
process_events_lem none true b h r p = p
process_events_lem (some true) false true h r p = ground (arith, r, p)
process_events_lem (some true) false false h r p = ground (arith, r, p)
process_events_lem (some true) true true h r p = ground (arith, r, p)
process_events_lem (some true) true false h r p = ground (arith, r, p)
process_events_lem (some false) false true h r p = ground (arith, r, p)
process_events_lem (some false) false false h r p = ground (arith, r, p)
process_events_lem (some false) true true h r p = ground (arith, r, p)
process_events_lem (some false) true false h r p = ground (arith, r, p)

settled_lem :
    (es : List Sent) (c : Option Bool) (b : Bool)
    → settled (last_card c es) b ≡ present (settled c b) es
settled_lem [] c b = refl
settled_lem (inserted ∷ es) c b = settled_lem es (some true) b
settled_lem (removed ∷ es) c b = settled_lem es (some false) b
settled_lem (write_protected ∷ es) c b = settled_lem es c b

-- Events that come while the host is set up are not lost: for a card that can be removed, what is
-- queued, once it is processed, leaves the card present exactly as the last of the events has it, or as
-- it was if none says so.
pub process_events-receive_all :
    (es : List Sent) (h : Host)
    → h.removed ≡ true
    → h.removable ≡ true
    → h.queued_events ≡ 0
    → (let queued = receive_all (map number es) h in
        (process_events queued.queued_events (record queued { removed = false })).card_present)
      ≡ present h.card_present es
process_events-receive_all es h r m q =
    let h0 = record h { removed = true; queued_events = 0 } in
    let same : h ≡ h0 =
      ap (λ b. record h { removed = b }) r
      ∙ ap (λ q. record h { removed = true; queued_events = q }) q in
    ap
      (λ h.
        (let queued = receive_all (map number es) h in
          (process_events queued.queued_events (record queued { removed = false })).card_present))
      same
    ∙ ap
        (λ queued.
          (process_events queued.queued_events (record queued { removed = false })).card_present)
        (receive_all_lem es none false h)
    ∙ process_events_lem (last_card none es) (any_wp false es) h.card_present
        (record h { removed = false; queued_events = bits (last_card none es) (any_wp false es) }) m
        refl
    ∙ settled_lem es none h.card_present
