-- ===== src/Audit/Scan/Complete.antt =====
-- What the scan returns of the pages of a node that serves the history.
use sorseal.Base.{
  ℕ, ◌≡◌, ◌≢◌, refl, ap, ◌∙◌, ◌++◌, ◌||◌, Bool, true, false, List, [], ◌∷◌, Text, ok, Bool-cases,
  inl, inr, ◌==◌, ==_iff, text_eq, contains, arith, ltb, if◌then◌else◌,
}
use mathlib.Core.List.{append_assoc, append-nil}
use sorseal.Interfaces.Services.{Services, Value}
use sorseal.Audit.Event.{UpgradeEvent, text_field, decode_upgrade_event}
use sorseal.Audit.Scan.{Scan, scan_event, stop_at, next_event, scan_page}

-- An event as the node serves it, with the id it has and what it decodes to.
pub record Served (S : Services) : Type 0 where
  pub raw : Value S
  pub id : Text
  pub event : UpgradeEvent
  pub id_is : text_field S raw "id" ≡ id
  pub named : id ≢ []
  pub decodes : decode_upgrade_event S raw ≡ ok event

module _ {S : Services} where
  -- No id is among those seen, and none comes twice.
  abbrev pub Fresh : List Text → List (Served S) → Type 0
  Fresh seen [] = Unit
  Fresh seen (e ∷ l) = (contains e.id seen ≡ false) × Fresh (e.id ∷ seen) l

  abbrev pub raws : List (Served S) → List (Value S)
  raws [] = []
  raws (e ∷ l) = e.raw ∷ raws l

  abbrev pub events_of : List (Served S) → List UpgradeEvent
  events_of [] = []
  events_of (e ∷ l) = e.event ∷ events_of l

  pub events_of-append : (k l : List (Served S)) → events_of (k ++ l) ≡ events_of k ++ events_of l
  events_of-append [] l = refl
  events_of-append (e ∷ k) l = ap (◌∷◌ e.event) (events_of-append k l)

module _ (last : ℕ) (contract_hex : Text) where
  -- The events of the contract up to the first one past the window.
  unfoldable pub wanted : List UpgradeEvent → List UpgradeEvent
  wanted [] = []
  wanted (e ∷ l) =
      let rest = wanted l in
      if ltb last e.ledger then [] else if e.contract == contract_hex then e ∷ rest else rest

  module _ {S : Services} where
    -- What one event adds to the scan.
    seen_event : Served S → Scan → Scan
    seen_event e s = record s { seen = e.id ∷ s.seen }

    kept_event : Served S → Scan → Scan
    kept_event e s = record {
      seen = e.id ∷ s.seen;
      events = if e.event.contract == contract_hex then s.events ++ (e.event ∷ []) else s.events;
    }

    -- The loop over a page, without the decoding.
    pub run_page : List (Served S) → Scan → Scan × Bool
    run_page [] s = (s, false)
    run_page (e ∷ l) s =
        let rest = run_page l (kept_event e s) in
        if ltb last e.event.ledger then (seen_event e s, true) else rest

    scan_event-decodes :
        (e : Served S) (s : Scan)
        → scan_event S last contract_hex e.raw e.id s
          ≡ ok (if ltb last e.event.ledger then (seen_event e s, true) else (kept_event e s, false))
    unfolding scan_event seen_event kept_event
    scan_event-decodes e s = rw (e.decodes) (ground arith)

    new_id :
        (e : Served S) (s : Scan)
        → contains e.id s.seen ≡ false
        → (e.id == [] || contains e.id s.seen) ≡ false
    new_id e s h = ground (arith, ==_iff e.id [], e.named)

    pub scan_page-run_page :
        (l : List (Served S)) (s : Scan)
        → Fresh s.seen l
        → scan_page S last contract_hex (raws l) s ≡ ok (run_page l s)
    unfolding scan_page run_page stop_at
    scan_page-run_page [] s f = refl
    scan_page-run_page (e ∷ l) s f = rw (e.id_is) (
        rw (new_id e s f.0, next_event)
          (rw (scan_event-decodes e s) (elim (Bool-cases (ltb last e.event.ledger)) [
            | inl past ↦ rw past refl
            | inr within ↦
                rw within (scan_page-run_page l (kept_event e s) (unfold kept_event in f.1))
          ])))

    pub events-run_page :
        (l : List (Served S)) (s : Scan)
        → (run_page l s).0.events ≡ s.events ++ wanted (events_of l)
    unfolding run_page wanted kept_event seen_event
    events-run_page [] s = rw append-nil
    events-run_page (e ∷ l) s = elim (Bool-cases (ltb last e.event.ledger)) [
      | inl past ↦ rw past (rw append-nil)
      | inr within ↦ rw within (events-run_page l (kept_event e s) ∙ kept)
    ]
      where
        kept :
            (kept_event e s).events ++ wanted (events_of l)
            ≡ s.events
              ++ (if e.event.contract == contract_hex
                  then e.event ∷ wanted (events_of l)
                  else wanted (events_of l))
        kept = elim (Bool-cases (e.event.contract == contract_hex)) [
          | inl mine ↦ rw mine (append_assoc s.events (e.event ∷ []) (wanted (events_of l)))
          | inr other ↦ rw other refl
        ]

    -- A page that runs past the window settles what is wanted; any other leaves the rest to do.
    pub wanted-append :
        (l : List (Served S)) (s : Scan) (more : List UpgradeEvent)
        → wanted (events_of l ++ more)
          ≡ (if (run_page l s).1 then wanted (events_of l) else wanted (events_of l) ++ wanted more)
    unfolding run_page wanted
    wanted-append [] s more = refl
    wanted-append (e ∷ l) s more = ground (arith, wanted-append l (kept_event e s) more)

    pub wanted_past :
        (l t : List (Served S)) (s : Scan)
        → (run_page l s).1 ≡ true
        → wanted (events_of (l ++ t)) ≡ wanted (events_of l)
    wanted_past l t s h = rw events_of-append (wanted-append l s (events_of t) ∙ rw h)

    pub wanted_within :
        (l t : List (Served S)) (s : Scan)
        → (run_page l s).1 ≡ false
        → wanted (events_of (l ++ t)) ≡ wanted (events_of l) ++ wanted (events_of t)
    wanted_within l t s h = rw events_of-append (wanted-append l s (events_of t) ∙ rw h)

    pub Fresh-run_page :
        (l t : List (Served S)) (s : Scan)
        → Fresh s.seen (l ++ t)
        → (run_page l s).1 ≡ false
        → Fresh (run_page l s).0.seen t
    unfolding run_page
    Fresh-run_page [] t s f h = f
    Fresh-run_page (e ∷ l) t s f h = elim (Bool-cases (ltb last e.event.ledger)) [
      | inl past ↦ absurd (ground arith)
      | inr within ↦
          rw within (Fresh-run_page l t (kept_event e s) (unfold kept_event in f.1) (ground arith))
    ]

    pub Fresh-append :
        (l t : List (Served S)) (seen : List Text) → Fresh seen (l ++ t) → Fresh seen l
    Fresh-append [] t seen f = tt
    Fresh-append (e ∷ l) t seen f = (f.0, Fresh-append l t (e.id ∷ seen) f.1)
