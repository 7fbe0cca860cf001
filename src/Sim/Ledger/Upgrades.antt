-- ===== src/Sim/Ledger/Upgrades.antt =====
-- The upgrade history that src/sim.rs makes of a chain of hashes.
use sorseal.Base.{
  ℕ, ◌+◌, ◌*◌, ◌^◌, ◌≡◌, ◌≤◌, ◌<◌, refl, ap, sym, ◌∙◌, subst, List, [], ◌∷◌, length, All, contains,
  false, text_eq, Text, Bytes, ok, >>=-eq-ok, arith,
}
use sorseal.Digest.Hex.{hex}
use sorseal.Interfaces.Encodings.{HasStrkey}
use sorseal.Interfaces.Services.{Services, ServicesLaws, Value}
use sorseal.Audit.Event.{UpgradeEvent}
use sorseal.Audit.Scan.Complete.{Served, Fresh, raws, events_of}
use sorseal.Audit.Scan.History.{Ascending}
use sorseal.Sim.Encode.{wasm_scval_b64}
use sorseal.Sim.Ledger.{ledger_of, event_id_of, event_object, upgrade_event, upgrade_events}
use sorseal.Sim.Ledger.Chain.{
  ledger_of_small, event_id_of-named, AllBefore, contains-AllBefore, AllBefore-cons,
}
use sorseal.Sim.Ledger.Events.{chain_event, decode_upgrade_event-event_object, id_field}

-- The upgrades from one hash to the next, numbered from `i`.
abbrev pub chain_events : Text → ℕ → List Text → List UpgradeEvent
chain_events contract_hex i [] = []
chain_events contract_hex i (old ∷ []) = []
chain_events contract_hex i (old ∷ new ∷ rest) =
    chain_event contract_hex i old new ∷ chain_events contract_hex (i + 1) (new ∷ rest)

-- No event before number `i`.
later :
    (c : Text) (k i : ℕ) (l : List Text)
    → k ≤ i
    → i + length l < 4000000
    → All (λ (f : UpgradeEvent). ledger_of k ≤ f.ledger) (chain_events c i l)
later c k i [] h small = tt
later c k i (old ∷ []) h small = tt
later c k i (old ∷ new ∷ rest) h small = (
  omega (arith, ledger_of_small i, ledger_of_small k),
  later c k (i + 1) (new ∷ rest) (omega arith) (omega arith),
)

pub chain_events-Ascending :
    (c : Text) (i : ℕ) (l : List Text) → i + length l < 4000000 → Ascending (chain_events c i l)
chain_events-Ascending c i [] small = tt
chain_events-Ascending c i (old ∷ []) small = tt
chain_events-Ascending c i (old ∷ new ∷ rest) small = (
  later c i (i + 1) (new ∷ rest) (omega arith) (omega arith),
  chain_events-Ascending c (i + 1) (new ∷ rest) (omega arith),
)

module _ (S : Services) (laws : ServicesLaws S) (id : Bytes)
    (has_strkey : HasStrkey S.strkey id) where
  abbrev strkey : Text
  strkey = S.strkey.to_string id

  -- The events as a node serves them, from number `i` on.
  pub record ServesChain (i : ℕ) (l : List Text) (events : List (Value S)) : Type 0 where
    pub served : List (Served S)
    pub raws_are : raws served ≡ events
    pub events_are : events_of served ≡ chain_events (hex id) i l
    pub fresh : (seen : List Text) → AllBefore (1000 + i * 1000) seen → Fresh seen served

  serve_one :
      (i : ℕ) (old new : Text) (raw : Value S)
      → i < 4000000
      → upgrade_event S strkey i old new ≡ ok raw
      → (e : Served S) × (e.raw ≡ raw)
        × (e.event ≡ chain_event (hex id) i old new)
        × (e.id ≡ event_id_of (ledger_of i))
  unfolding upgrade_event
  serve_one i old new raw small h =
      let (t1, first, h) = >>=-eq-ok (wasm_scval_b64 S.base64 old) _ h in
      let (t2, second, h) = >>=-eq-ok (wasm_scval_b64 S.base64 new) _ h in
      let positive : 0 < ledger_of i = omega (arith, ledger_of_small i) in
      let small_ledger : ledger_of i < 2 ^ 32 = omega (arith, ledger_of_small i) in
      (
        record {
          raw = event_object S strkey i t1 t2;
          id = event_id_of (ledger_of i);
          event = chain_event (hex id) i old new;
          id_is = id_field S laws id has_strkey i t1 t2;
          named = event_id_of-named (ledger_of i) positive small_ledger;
          decodes =
              decode_upgrade_event-event_object S laws id has_strkey i old new t1 t2 first second;
        },
        ground (arith, h),
        refl,
        refl,
      )

  pub upgrade_events-ServesChain :
      (i : ℕ) (l : List Text) (events : List (Value S))
      → i + length l < 4000000
      → upgrade_events S strkey i l ≡ ok events
      → ServesChain i l events
  unfolding upgrade_events
  upgrade_events-ServesChain i [] events small h = record {
    served = [];
    raws_are = ground (arith, h);
    events_are = refl;
    fresh = λ seen b. tt;
  }
  upgrade_events-ServesChain i (old ∷ []) events small h = record {
    served = [];
    raws_are = ground (arith, h);
    events_are = refl;
    fresh = λ seen b. tt;
  }
  upgrade_events-ServesChain i (old ∷ new ∷ rest) events small h =
      let (raw, one, h) = >>=-eq-ok (upgrade_event S strkey i old new) _ h in
      let (more, others, h) = >>=-eq-ok (upgrade_events S strkey (i + 1) (new ∷ rest)) _ h in
      let (e, raw_is, event_is, id_is) = serve_one i old new raw (omega arith) one in
      let rec : ServesChain (i + 1) (new ∷ rest) more =
        upgrade_events-ServesChain (i + 1) (new ∷ rest) more (omega arith) others in
      record {
        served = e ∷ rec.served;
        raws_are = rw raw_is (rw (rec.raws_are) (ground (arith, h)));
        events_are = rw event_is (rw (rec.events_are) refl);
        fresh = λ seen before.
            let n : ℕ = 1000 + i * 1000 in
            subst (λ x. (contains x seen ≡ false) × Fresh (x ∷ seen) rec.served)
              (sym (id_is ∙ ap event_id_of (ledger_of_small i (omega arith))))
              (
                contains-AllBefore n seen (omega arith) before,
                rec.fresh (event_id_of n ∷ seen) (
                    AllBefore-cons n (1000 + (i + 1) * 1000) seen (omega arith) (omega arith)
                      before),
              );
      }
