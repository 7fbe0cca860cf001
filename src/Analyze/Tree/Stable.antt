-- ===== src/Analyze/Tree/Stable.antt =====
-- The report and the digest of src/analyze.rs against the order of `read_dir`.
use sorseal.Base.{
  subst, ℕ, zero, suc, ◌≡◌, refl, ap, sym, ◌∙◌, ◌++◌, Bool, true, false, List, [], ◌∷◌, map,
  if◌then◌else◌, Text, Bytes, Result, ok, Bool-cases, inl, inr, >>=-eq-ok,
}
use sorseal.Base.Order.{insert, insert_all}
use sorseal.Interfaces.Files.{Sha256}
use sorseal.Clock.{digits}
use sorseal.Digest.Tree.{below, as_bytes}
use sorseal.Digest.Hex.{hex}
use sorseal.Analyze.Findings.{
  Finding, Analysis, digest, finding_bytes, Severity, severity_str, low, medium, high, critical,
  rank,
}
use sorseal.Analyze.Blocks.{Alphanumeric}
use sorseal.Analyze.Tree.{
  Listing, Walked, nothing_walked, is_ignored, walk, Key, key, key_order, insert_finding,
  sort_findings, analyze_tree_with,
}
use sorseal.Analyze.Tree.Gather.{gather, walk-gather, after-nothing}
use sorseal.Analyze.Tree.Reordered.{
  Reordered, same, swap, inside, behind, again, Matches, Matches-refl, Matches-trans,
  Matches-together, Matches-swap,
}

-- The keys of sorted findings are the keys, sorted.
key-insert_finding :
    (f : Finding) (fs : List Finding)
    → map key (insert_finding f fs) ≡ insert key_order (key f) (map key fs)
unfolding insert_finding insert
key-insert_finding f [] = refl
key-insert_finding f (g ∷ fs) = elim (Bool-cases (key_order.lt (key g) (key f))) [
  | inl e ↦ rw e (ap (◌∷◌ (key g)) (key-insert_finding f fs))
  | inr e ↦ rw e refl
]

key-sort_findings :
    (fs : List Finding) → map key (sort_findings fs) ≡ insert_all key_order (map key fs) []
unfolding sort_findings insert_all
key-sort_findings [] = refl
key-sort_findings (f ∷ fs) =
    key-insert_finding f (sort_findings fs) ∙ ap (insert key_order (key f)) (key-sort_findings fs)

-- What the hasher is fed, from the keys.
abbrev level_str : ℕ → Text
level_str zero = severity_str low
level_str (suc zero) = severity_str medium
level_str (suc (suc zero)) = severity_str high
level_str (suc (suc (suc n))) = severity_str critical

level_str-rank : (s : Severity) → level_str (rank s) ≡ severity_str s
level_str-rank low = refl
level_str-rank medium = refl
level_str-rank high = refl
level_str-rank critical = refl

key_bytes : List Key → Bytes
key_bytes [] = []
key_bytes ((path, (line, (id, (level, message)))) ∷ ks) =
    as_bytes id
    ++ (0
        ∷ (as_bytes (level_str level)
            ++ (0
                ∷ (as_bytes path
                    ++ (0
                        ∷ (as_bytes (digits 20 line)
                            ++ (0 ∷ (as_bytes message ++ (0 ∷ key_bytes ks)))))))))

finding_bytes-key : (fs : List Finding) → finding_bytes fs ≡ key_bytes (map key fs)
unfolding finding_bytes key key_bytes
finding_bytes-key [] = refl
finding_bytes-key (f ∷ fs) = rw (level_str-rank f.severity) (rw (finding_bytes-key fs) refl)

Matches-if :
    (test : Bool) (r s s' : Result Walked)
    → Matches s s'
    → Matches (if test then r else s) (if test then r else s')
Matches-if true r s s' h = Matches-refl r
Matches-if false r s s' h = h

ok_inj : {A : Type 0} {x y : A} → ◌≡◌ {A = Result A} (ok x) (ok y) → x ≡ y
ok_inj h = cc

module _ (ia : Alphanumeric) (no_ignore : Bool) (root : Text) (ignore : List Text) where
  gather-Reordered :
      {l l' : Listing}
      → Reordered l l'
      → (rel : Text)
      → Matches (gather ia no_ignore root ignore rel l) (gather ia no_ignore root ignore rel l')
  unfolding gather
  gather-Reordered (same l) rel = Matches-refl (gather ia no_ignore root ignore rel l)
  gather-Reordered (swap n m a b l) rel = Matches-swap _ _ (gather ia no_ignore root ignore rel l)
  gather-Reordered (inside n l r) rel =
      Matches-together _ _ _ _
        (Matches-if (is_ignored ignore n) (ok nothing_walked) _ _
          (gather-Reordered r (below rel n)))
        (Matches-refl (gather ia no_ignore root ignore rel l))
  gather-Reordered (behind n a r) rel =
      Matches-together _ _ _ _ (Matches-refl _) (gather-Reordered r rel)
  gather-Reordered (again r s) rel =
      Matches-trans _ _ _ (gather-Reordered r rel) (gather-Reordered s rel)

-- The entries of every directory may come in any order: where the analysis of a tree has a result, that of the tree
-- with its entries in another order has one, with the same findings as far as the order and the digest look at them,
-- in the same places, and with the same digest.
pub analyze_tree_with-Reordered :
    (ia : Alphanumeric) (sha : Sha256) (root : Text) (ignore : List Text) (no_ignore : Bool)
    (l l' : Listing) (a : Analysis)
    → Reordered l l'
    → analyze_tree_with ia root (ok l) ignore no_ignore ≡ ok a
    → (b : Analysis) × (analyze_tree_with ia root (ok l') ignore no_ignore ≡ ok b)
      × (b.ok ≡ a.ok)
      × (map key b.findings ≡ map key a.findings)
      × (digest sha b ≡ digest sha a)
unfolding analyze_tree_with digest
analyze_tree_with-Reordered ia sha root ignore no_ignore l l' a r h =
    let walked : (k : Listing)
        → walk ia no_ignore root ignore [] k nothing_walked ≡ gather ia no_ignore root ignore [] k =
      λ k.
        walk-gather ia no_ignore root ignore [] k nothing_walked
        ∙ after-nothing ia no_ignore root ignore (gather ia no_ignore root ignore [] k) in
    let (w, e, f) =
      >>=-eq-ok (walk ia no_ignore root ignore [] l nothing_walked)
        (λ w. ok (record { ok = w.walked_any; findings = sort_findings w.findings })) h in
    let (w', e', (any_same, like)) =
      subst (λ r. Matches r (gather ia no_ignore root ignore [] l')) (sym (walked l) ∙ e)
        (gather-Reordered ia no_ignore root ignore r []) in
    let keys_same : map key (sort_findings w'.findings) ≡ map key a.findings =
      key-sort_findings w'.findings
      ∙ like []
      ∙ sym (key-sort_findings w.findings)
      ∙ ap (λ (x : Analysis). map key x.findings) (ok_inj f) in
    (
      record { ok = w'.walked_any; findings = sort_findings w'.findings },
      rw (walked l' ∙ e') refl,
      any_same ∙ ap (λ (x : Analysis). x.ok) (ok_inj f),
      keys_same,
      ap (λ bytes. hex (sha bytes))
          (finding_bytes-key (sort_findings w'.findings)
            ∙ ap key_bytes keys_same
            ∙ sym (finding_bytes-key a.findings)),
    )
