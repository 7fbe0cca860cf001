-- ===== src/Audit/Scan/Sound.antt =====
-- Whatever the node answers, what the scan returns are events of the contract in the window.
use sorseal.Base.{
  ℕ, zero, suc, ◌+◌, ◌≡◌, ◌≤◌, ◌++◌, Bool, true, false, List, [], ◌∷◌, Option, none, some, Text,
  Result, ==_iff, text_eq, arith, All, Ensures, Ensures-bind, Ensures-after, ok_or,
}
use sorseal.Interfaces.Services.{Services, Value}
use sorseal.Onchain.Verify.{check_error}
use sorseal.Audit.Event.{UpgradeEvent, text_field, decode_upgrade_event}
use sorseal.Audit.Scan.{
  Scan, empty_scan, max_pages, Node, page_events, page_cursor, scan_event, stop_at, after_page,
  next_event, read_page, scan_page, scan_pages, scan_upgrade_events, sort_by_ledger, insert_event,
}

-- In ascending order of their ledgers.
abbrev pub IsSorted : List UpgradeEvent → Type 0
IsSorted [] = Unit
IsSorted (e ∷ []) = Unit
IsSorted (e ∷ f ∷ l) = (e.ledger ≤ f.ledger) × IsSorted (f ∷ l)

insert-IsSorted :
    (e : UpgradeEvent) (l : List UpgradeEvent) → IsSorted l → IsSorted (insert_event e l)
unfolding insert_event
insert-IsSorted e [] h = tt
insert-IsSorted e (f ∷ []) h = ground arith
insert-IsSorted e (f ∷ g ∷ l) h = ground (arith, insert-IsSorted e (g ∷ l) h.1)

pub sort-IsSorted : (l : List UpgradeEvent) → IsSorted (sort_by_ledger l)
unfolding sort_by_ledger
sort-IsSorted [] = tt
sort-IsSorted (e ∷ l) = insert-IsSorted e (sort_by_ledger l) (sort-IsSorted l)

module _ (last : ℕ) (contract_hex : Text) where
  -- An event of the contract, not past the window.
  abbrev pub IsWanted : UpgradeEvent → Type 0
  IsWanted e = (e.contract ≡ contract_hex) × (e.ledger ≤ last)

  insert-IsWanted :
      (e : UpgradeEvent) (l : List UpgradeEvent)
      → IsWanted e
      → All IsWanted l
      → All IsWanted (insert_event e l)
  unfolding insert_event
  insert-IsWanted e [] h a = (h, tt)
  insert-IsWanted e (f ∷ l) h a = ground (arith, insert-IsWanted e l h a.1)

  sort-IsWanted : (l : List UpgradeEvent) → All IsWanted l → All IsWanted (sort_by_ledger l)
  unfolding sort_by_ledger
  sort-IsWanted [] a = tt
  sort-IsWanted (e ∷ l) a = insert-IsWanted e (sort_by_ledger l) a.0 (sort-IsWanted l a.1)

  append-IsWanted :
      (l : List UpgradeEvent) (e : UpgradeEvent)
      → All IsWanted l
      → IsWanted e
      → All IsWanted (l ++ (e ∷ []))
  append-IsWanted [] e a h = (h, tt)
  append-IsWanted (f ∷ l) e a h = (a.0, append-IsWanted l e a.1 h)

  abbrev Keeps : Scan → Type 0
  Keeps s = All IsWanted s.events

  abbrev KeepsPair : Scan × Bool → Type 0
  KeepsPair r = Keeps r.0

  module _ (S : Services) where
    scan_event-Keeps :
        (raw : Value S) (id : Text) (s : Scan)
        → Keeps s
        → Ensures KeepsPair (scan_event S last contract_hex raw id s)
    unfolding scan_event
    scan_event-Keeps raw id s k =
        Ensures-after KeepsPair (decode_upgrade_event S raw) _
          (λ ev. ground (arith, append-IsWanted s.events ev k, ==_iff ev.contract contract_hex))

    stop_at-Keeps :
        (past : Bool) (s : Scan) (next : Scan → Result (Scan × Bool))
        → Keeps s
        → ((t : Scan) → Keeps t → Ensures KeepsPair (next t))
        → Ensures KeepsPair (stop_at past s next)
    unfolding stop_at
    stop_at-Keeps true s next k h = k
    stop_at-Keeps false s next k h = h s k

    next_event-Keeps :
        (known : Bool) (raw : Value S) (id : Text) (s : Scan) (next : Scan → Result (Scan × Bool))
        → Keeps s
        → ((t : Scan) → Keeps t → Ensures KeepsPair (next t))
        → Ensures KeepsPair (next_event S last contract_hex known raw id s next)
    unfolding next_event
    next_event-Keeps true raw id s next k h = h s k
    next_event-Keeps false raw id s next k h =
        Ensures-bind KeepsPair KeepsPair (scan_event S last contract_hex raw id s) _
          (scan_event-Keeps raw id s k) (λ r kept. stop_at-Keeps r.1 r.0 next kept h)

    scan_page-Keeps :
        (l : List (Value S)) (s : Scan)
        → Keeps s
        → Ensures KeepsPair (scan_page S last contract_hex l s)
    unfolding scan_page
    scan_page-Keeps [] s k = k
    scan_page-Keeps (raw ∷ rest) s k =
        next_event-Keeps _ raw (text_field S raw "id") s _ k (scan_page-Keeps rest)

    after_page-Keeps :
        (past : Bool) (c : Option Text) (s : Scan) (next : Text → Scan → Result Scan)
        → Keeps s
        → ((d : Text) (t : Scan) → Keeps t → Ensures Keeps (next d t))
        → Ensures Keeps (after_page past c s next)
    unfolding after_page
    after_page-Keeps true c s next k h = k
    after_page-Keeps false none s next k h = k
    after_page-Keeps false (some c) s next k h = h c s k

    read_page-Keeps :
        (l : List (Value S)) (c : Option Text) (s : Scan) (next : Text → Scan → Result Scan)
        → Keeps s
        → ((d : Text) (t : Scan) → Keeps t → Ensures Keeps (next d t))
        → Ensures Keeps (read_page S last contract_hex l c s next)
    unfolding read_page
    read_page-Keeps [] c s next k h = k
    read_page-Keeps (raw ∷ rest) c s next k h =
        Ensures-bind KeepsPair Keeps (scan_page S last contract_hex (raw ∷ rest) s) _
          (scan_page-Keeps (raw ∷ rest) s k) (λ r kept. after_page-Keeps r.1 c r.0 next kept h)

    scan_pages-Keeps :
        (node : Node S) (start left n : ℕ) (c : Option Text) (s : Scan)
        → Keeps s
        → Ensures Keeps (scan_pages S last contract_hex node start left n c s)
    unfolding scan_pages
    scan_pages-Keeps node start zero n c s k = tt
    scan_pages-Keeps node start (suc left) n c s k = Ensures-after Keeps (node n _) _ λ resp.
        Ensures-after Keeps (check_error S _ resp) _ λ _.
          Ensures-after Keeps
            (ok_or (S.json.get resp "result") "RPC response has no result: {resp}" []) _
            λ result.
              read_page-Keeps (page_events S result) (page_cursor S result) s _ k
                (λ d t. scan_pages-Keeps node start left (n + 1) (some d) t)

    -- Whatever the node answers: the events that the scan returns all belong to the contract, none
    -- lies past the end of the window, and their ledgers ascend.
    pub scan_upgrade_events-IsWanted :
        (node : Node S) (start : ℕ)
        → Ensures
            (λ evs. All IsWanted evs × IsSorted evs)
            (scan_upgrade_events S last contract_hex node start)
    unfolding scan_upgrade_events
    scan_upgrade_events-IsWanted node start =
        Ensures-bind Keeps (λ evs. All IsWanted evs × IsSorted evs)
          (scan_pages S last contract_hex node start max_pages 0 none empty_scan) _
          (scan_pages-Keeps node start max_pages 0 none empty_scan tt)
          (λ s k. (sort-IsWanted s.events k, sort-IsSorted s.events))
