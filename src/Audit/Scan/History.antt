-- ===== src/Audit/Scan/History.antt =====
-- A node that serves a history page by page, and what the scan makes of it.
use sorseal.Base.{
  ℕ, zero, suc, ◌+◌, ◌≡◌, ◌≤◌, ◌<◌, refl, ap, sym, ◌∙◌, ◌++◌, ◌&&◌, Bool, true, false, List, [],
  ◌∷◌, Option, none, some, Text, Result, ok, Bool-cases, inl, inr, ◌==◌, text_eq, arith, All, leb,
  length, filter,
}
use mathlib.Core.List.{append_assoc, append-nil}
use sorseal.Interfaces.Services.{Services, Value}
use sorseal.Onchain.Verify.{check_error}
use sorseal.Audit.Event.{UpgradeEvent}
use sorseal.Audit.Scan.{
  Scan, empty_scan, events_request, max_pages, Node, page_events, page_cursor, after_page,
  read_page, scan_pages, scan_upgrade_events, sort_by_ledger, insert_event,
}
use sorseal.Audit.Scan.Complete.{
  Served, Fresh, raws, events_of, wanted, run_page, events-run_page, scan_page-run_page,
  wanted_past, wanted_within, Fresh-run_page, Fresh-append,
}

-- The node answers request `n` of a scan from `start`, where it asks with this cursor, by this page and the next cursor.
pub record Answers (S : Services) (node : Node S) (start n : ℕ) (asked : Option Text)
    (page : List (Served S)) (cursor : Option Text) : Type 0 where
  pub resp : Value S
  pub result : Value S
  pub gives : node n (events_request S start asked) ≡ ok resp
  pub no_error : S.json.get resp "error" ≡ none
  pub result_is : S.json.get resp "result" ≡ some result
  pub events_are : page_events S result ≡ raws page
  pub cursor_is : page_cursor S result ≡ cursor

-- The pages of a history, from request `n` on, which asks with the given cursor: each but the last has a cursor behind
-- it, with which the next request asks, and the last has none or is followed by an empty page.
pub data Serves (S : Services) (node : Node S) (start : ℕ)
    : ℕ → Option Text → List (List (Served S)) → Type 0 where
  stop : {n : ℕ} {a c : Option Text} → Answers S node start n a [] c → Serves S node start n a []
  last_page :
      {n : ℕ} {a : Option Text} {e : Served S} {p : List (Served S)}
      → Answers S node start n a (e ∷ p) none
      → Serves S node start n a ((e ∷ p) ∷ [])
  page :
      {n : ℕ} {a : Option Text} {e : Served S} {p : List (Served S)} {ps : List (List (Served S))}
      {c : Text}
      → Answers S node start n a (e ∷ p) (some c)
      → Serves S node start (n + 1) (some c) ps
      → Serves S node start n a ((e ∷ p) ∷ ps)

abbrev pub history : {S : Services} → List (List (Served S)) → List (Served S)
history [] = []
history (p ∷ ps) = p ++ history ps

after_page-none :
    (past : Bool) (s : Scan) (next : Text → Scan → Result Scan) → after_page past none s next ≡ ok s
unfolding after_page
after_page-none true s next = refl
after_page-none false s next = refl

after_page_past :
    (c : Option Text) (s : Scan) (next : Text → Scan → Result Scan)
    → after_page true c s next ≡ ok s
unfolding after_page
after_page_past c s next = refl

after_page_on :
    (c : Text) (s : Scan) (next : Text → Scan → Result Scan)
    → after_page false (some c) s next ≡ next c s
unfolding after_page
after_page_on c s next = refl

module _ (S : Services) (last : ℕ) (contract_hex : Text) (node : Node S) (start : ℕ) where
  -- One request: what is done with the page that is served.
  scan_pages-Answers :
      (left n : ℕ) (cursor : Option Text) (s : Scan) (p : List (Served S)) (c : Option Text)
      → Answers S node start n cursor p c
      → scan_pages S last contract_hex node start (suc left) n cursor s
        ≡ read_page S last contract_hex
            (raws p)
            c
            s
            (λ k. scan_pages S last contract_hex node start left (n + 1) (some k))
  unfolding scan_pages check_error
  scan_pages-Answers left n cursor s p c a =
      rw (a.gives)
        (rw (a.no_error, check_error) (rw (a.result_is) (rw (a.events_are, a.cursor_is))))

  read_page-run_page :
      (e : Served S) (p : List (Served S)) (c : Option Text) (s : Scan)
      (next : Text → Scan → Result Scan)
      → Fresh s.seen (e ∷ p)
      → read_page S last contract_hex (raws (e ∷ p)) c s next
        ≡ (let r = run_page last contract_hex (e ∷ p) s in after_page r.1 c r.0 next)
  unfolding read_page
  read_page-run_page e p c s next f = rw (scan_page-run_page last contract_hex (e ∷ p) s f)

  abbrev Scans : ℕ → ℕ → Option Text → Scan → List UpgradeEvent → Type 0
  Scans left n cursor s evs =
      (s' : Scan) × (scan_pages S last contract_hex node start left n cursor s ≡ ok s')
      × (s'.events ≡ s.events ++ wanted last contract_hex evs)

  scan_pages-Serves :
      (left n : ℕ) (cursor : Option Text) (s : Scan) (ps : List (List (Served S)))
      → Serves S node start n cursor ps
      → length ps < left
      → Fresh s.seen (history ps)
      → Scans left n cursor s (events_of (history ps))
  scan_pages-Serves zero n cursor s ps v h f = absurd (omega arith)
  scan_pages-Serves (suc left) n cursor s _ (stop {c} a) h f = (
    s,
    scan_pages-Answers left n cursor s [] c a ∙ unfold read_page in refl,
    unfold wanted in sym (append-nil s.events),
  )
  scan_pages-Serves (suc left) n cursor s _ (last_page {e} {p} a) h f =
      let l : List (Served S) = e ∷ p in
      let r = run_page last contract_hex l s in
      (
        r.0,
        scan_pages-Answers left n cursor s l none a
            ∙ read_page-run_page e p none s _ (Fresh-append last contract_hex l [] s.seen f)
            ∙ after_page-none r.1 r.0 _,
        events-run_page last contract_hex l s
            ∙ ap (λ (k : List (Served S)). s.events ++ wanted last contract_hex (events_of k))
                (sym (append-nil l)),
      )
  scan_pages-Serves (suc left) n cursor s _ (page {e} {p} {ps} {c} a more) h f =
      let l : List (Served S) = e ∷ p in
      let r = run_page last contract_hex l s in
      let read =
        scan_pages-Answers left n cursor s l (some c) a
        ∙ read_page-run_page e p (some c) s _
            (Fresh-append last contract_hex l (history ps) s.seen f) in
      elim (Bool-cases r.1) [
        | inl past ↦ (
          r.0,
          read ∙ rw past (after_page_past (some c) r.0 _),
          events-run_page last contract_hex l s
              ∙ ap (λ evs. s.events ++ evs)
                  (sym (wanted_past last contract_hex l (history ps) s past)),
        )
        | inr within ↦
            let (s', done, evs) =
              scan_pages-Serves left (n + 1) (some c) r.0 ps more (omega arith)
                (Fresh-run_page last contract_hex l (history ps) s f within) in
            (
              s',
              read ∙ rw within (after_page_on c r.0 _ ∙ done),
              evs
                  ∙ ap (λ before. before ++ wanted last contract_hex (events_of (history ps)))
                      (events-run_page last contract_hex l s)
                  ∙ append_assoc s.events _ _
                  ∙ ap (λ evs. s.events ++ evs)
                      (sym (wanted_within last contract_hex l (history ps) s within)),
            )
      ]

-- Later events do not lie in earlier ledgers.
abbrev pub Ascending : List UpgradeEvent → Type 0
Ascending [] = Unit
Ascending (e ∷ l) = All (λ (f : UpgradeEvent). e.ledger ≤ f.ledger) l × Ascending l

-- An event of the contract, not past the end of the window.
abbrev pub in_window : ℕ → Text → UpgradeEvent → Bool
in_window last contract_hex e = leb e.ledger last && e.contract == contract_hex

module _ (last : ℕ) (contract_hex : Text) where
  filter-past :
      (b : ℕ) (l : List UpgradeEvent)
      → last < b
      → All (λ (f : UpgradeEvent). b ≤ f.ledger) l
      → filter (in_window last contract_hex) l ≡ []
  filter-past b [] h a = refl
  filter-past b (e ∷ l) h a = ground (arith, filter-past b l h a.1)

  wanted-Ascending :
      (l : List UpgradeEvent)
      → Ascending l
      → wanted last contract_hex l ≡ filter (in_window last contract_hex) l
  unfolding wanted
  wanted-Ascending [] a = refl
  wanted-Ascending (e ∷ l) a = ground (arith, wanted-Ascending l a.1, filter-past e.ledger l)

All-filter :
    (b : ℕ) (p : UpgradeEvent → Bool) (l : List UpgradeEvent)
    → All (λ (f : UpgradeEvent). b ≤ f.ledger) l
    → All (λ (f : UpgradeEvent). b ≤ f.ledger) (filter p l)
All-filter b p [] h = tt
All-filter b p (e ∷ l) h = ground (arith, All-filter b p l h.1)

Ascending-filter :
    (p : UpgradeEvent → Bool) (l : List UpgradeEvent) → Ascending l → Ascending (filter p l)
Ascending-filter p [] a = tt
Ascending-filter p (e ∷ l) a = ground (arith, Ascending-filter p l a.1, All-filter e.ledger p l a.0)

sort-Ascending : (l : List UpgradeEvent) → Ascending l → sort_by_ledger l ≡ l
unfolding sort_by_ledger insert_event
sort-Ascending [] a = refl
sort-Ascending (e ∷ []) a = refl
sort-Ascending (e ∷ f ∷ l) a = rw (sort-Ascending (f ∷ l) a.1) (ground arith)

-- Against a node that serves an ascending history over fewer than MAX_PAGES pages, each behind the cursor of the one
-- before, and each event with an id of its own:
-- the scan returns exactly the events of the contract up to the end of the window, in order.
pub scan_upgrade_events-Serves :
    (S : Services) (last : ℕ) (contract_hex : Text) (node : Node S) (start : ℕ)
    (ps : List (List (Served S)))
    → Serves S node start 0 none ps
    → length ps < max_pages
    → Fresh [] (history ps)
    → Ascending (events_of (history ps))
    → scan_upgrade_events S last contract_hex node start
      ≡ ok (filter (in_window last contract_hex) (events_of (history ps)))
unfolding scan_upgrade_events
scan_upgrade_events-Serves S last contract_hex node start ps v few fresh up =
    let evs = events_of (history ps) in
    let (s, done, found) =
      scan_pages-Serves S last contract_hex node start max_pages 0 none empty_scan ps v few fresh in
    rw done (
      ap ok (
        ap sort_by_ledger (found ∙ wanted-Ascending last contract_hex evs up)
        ∙ sort-Ascending _ (Ascending-filter (in_window last contract_hex) evs up)))
