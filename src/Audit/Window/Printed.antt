-- ===== src/Audit/Window/Printed.antt =====
-- Ledger windows as nodes print them, for src/audit.rs.
use sorseal.Base.{
  ℕ, ◌^◌, ◌≡◌, ◌<◌, refl, ap, ◌∙◌, ◌++◌, true, false, [], ◌∷◌, none, some, nat_beq, all, text, Text,
  arith, ok, ◌>>=◌,
}
use sorseal.Clock.{digits}
use sorseal.Analyze.Suppress.{strip_prefix}
use sorseal.Interfaces.Services.{Services, Value, Transport}
use sorseal.Audit.Window.Digits.{is_digit, digits-all, parse_u32-digits, trim-digits}
use sorseal.Audit.Window.{
  split_once, before, parse_ledger_range, window_request, window_of, range_or, error_message,
  split_at, window_of_error, rpc_ledger_window,
}

strip_prefix-digit :
    (c : ℕ) (s : Text) → is_digit c ≡ true → strip_prefix (text " - ") (c ∷ s) ≡ none
unfolding strip_prefix text
strip_prefix-digit c s h = let e : nat_beq 0x20 c ≡ false = ground arith in rw e refl

split_once-later :
    (sep : Text) (c : ℕ) (s : Text)
    → strip_prefix sep (c ∷ s) ≡ none
    → split_once sep (c ∷ s) ≡ before c (split_once sep s)
unfolding split_once
split_once-later sep c s h = ap (λ o. split_at c o (split_once sep s)) h

split_once-found : (t : Text) → split_once (text " - ") (text " - " ++ t) ≡ some ([], t)
unfolding split_once strip_prefix text
split_once-found t = refl

split_once-digits :
    (s t : Text)
    → all is_digit s ≡ true
    → split_once (text " - ") (s ++ (text " - " ++ t)) ≡ some (s, t)
split_once-digits [] t h = split_once-found t
split_once-digits (c ∷ s) t h =
    split_once-later (text " - ") c (s ++ (text " - " ++ t)) (strip_prefix-digit c _ (ground arith))
    ∙ ap (before c) (split_once-digits s t (ground arith))

-- The message of a node for the window from `a` to `b`.
abbrev pub window_message : ℕ → ℕ → Text
window_message a b =
    text "startLedger must be within the ledger range: "
    ++ (digits 20 a ++ (text " - " ++ digits 20 b))

split_once-message :
    (t : Text)
    → split_once (text "ledger range: ") (text "startLedger must be within the ledger range: " ++ t)
      ≡ some (text "startLedger must be within the ", t)
unfolding split_once strip_prefix text
split_once-message t = refl

parse_ledger_range-window_message :
    (a b : ℕ) → a < 2 ^ 32 → b < 2 ^ 32 → parse_ledger_range (window_message a b) ≡ some (a, b)
unfolding parse_ledger_range
parse_ledger_range-window_message a b h k =
    rw (split_once-message (digits 20 a ++ (text " - " ++ digits 20 b))) (
      rw (split_once-digits (digits 20 a) (digits 20 b) (digits-all 20 a)) (
        rw (trim-digits a)
          (rw (parse_u32-digits a h) (rw (trim-digits b) (rw (parse_u32-digits b k) refl)))))

error_message-message :
    (S : Services) (e m : Value S) (t : Text)
    → S.json.get e "message" ≡ some m
    → S.json.as_str m ≡ some t
    → error_message S e ≡ t
unfolding error_message
error_message-message S e m t h k = rw h (rw k refl)

-- A node that answers the probe with an error for a window of 32-bit ledgers, in the words that Soroban nodes use, has
-- that window found, whatever else is in the error.
pub rpc_ledger_window-window_message :
    (S : Services) (post : Transport S) (resp e m : Value S) (a b : ℕ)
    → post (window_request S) ≡ ok resp
    → S.json.get resp "error" ≡ some e
    → S.json.get e "message" ≡ some m
    → S.json.as_str m ≡ some (window_message a b)
    → a < 2 ^ 32
    → b < 2 ^ 32
    → rpc_ledger_window S post ≡ ok (a, b)
unfolding rpc_ledger_window window_of window_of_error
rpc_ledger_window-window_message S post resp e m a b h k l s p q =
    let said = error_message-message S e m (window_message a b) l s in
    ap (λ r. r >>= λ v. window_of S v (S.json.get v "error")) h
    ∙ ap (window_of S resp) k
    ∙ ap (λ t. range_or S t (parse_ledger_range t)) said
    ∙ ap (range_or S (window_message a b)) (parse_ledger_range-window_message a b p q)
