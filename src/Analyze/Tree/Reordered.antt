-- ===== src/Analyze/Tree/Reordered.antt =====
-- Trees whose directories are listed in other orders, and what the walk of src/analyze.rs gathers from them.
use sorseal.Base.{
  subst, ◌≡◌, refl, ap, sym, ◌∙◌, ◌++◌, ◌||◌, Bool, true, false, List, [], ◌∷◌, map, Text, Result,
  ok, err, panic, ◌>>=◌, Ensures,
}
use sorseal.Base.Order.{insert_all, insert_all_comm, insert_all-append}
use sorseal.Analyze.Findings.{Finding}
use sorseal.Analyze.Tree.{Source, dir, Listing, entry, Walked, Key, key, key_order}
use sorseal.Analyze.Tree.Gather.{plus}

-- The same tree with the entries of its directories in another order: two neighbours change places, here, further
-- behind or in a directory below, any number of times.
pub data Reordered : Listing → Listing → Type 0 where
  same : (l : Listing) → Reordered l l
  swap :
      (n m : Text) (a b : Source) (l : Listing)
      → Reordered (entry n a (entry m b l)) (entry m b (entry n a l))
  inside :
      (n : Text) {k k' : Listing} (l : Listing)
      → Reordered k k'
      → Reordered (entry n (dir k) l) (entry n (dir k') l)
  behind :
      (n : Text) (a : Source) {l l' : Listing}
      → Reordered l l'
      → Reordered (entry n a l) (entry n a l')
  again : {k l m : Listing} → Reordered k l → Reordered l m → Reordered k m

-- Findings that are sorted in to the same effect.
abbrev pub keys : Walked → List Key
keys w = map key w.findings

abbrev pub Like : Walked → Walked → Type 0
Like v w =
    (w.walked_any ≡ v.walked_any)
    × ((s : List Key) → insert_all key_order (keys w) s ≡ insert_all key_order (keys v) s)

-- Where the one has a result, the other has one like it.
abbrev pub Matches : Result Walked → Result Walked → Type 0
Matches r r' = Ensures (λ (v : Walked). (w : Walked) × (r' ≡ ok w) × Like v w) r

map-append : (fs gs : List Finding) → map key (fs ++ gs) ≡ map key fs ++ map key gs
map-append [] gs = refl
map-append (f ∷ fs) gs = ap (◌∷◌ (key f)) (map-append fs gs)

keys-plus :
    (a b : Walked) (s : List Key)
    → insert_all key_order (keys (plus a b)) s
      ≡ insert_all key_order (keys a) (insert_all key_order (keys b) s)
keys-plus a b s =
    ap (λ ks. insert_all key_order ks s) (map-append a.findings b.findings)
    ∙ insert_all-append key_order (keys a) (keys b) s

Like-refl : (v : Walked) → Like v v
Like-refl v = (refl, λ s. refl)

Like-plus : (a a' b b' : Walked) → Like a a' → Like b b' → Like (plus a b) (plus a' b')
Like-plus a a' b b' (h, k) (h', k') = (
  rw h (rw h' refl),
  λ s. keys-plus a' b' s ∙ ap (insert_all key_order (keys a')) (k' s) ∙ k _ ∙ sym (keys-plus a b s),
)

or_swap : (a b c : Bool) → (b || (a || c)) ≡ (a || (b || c))
or_swap true true c = refl
or_swap true false c = refl
or_swap false b c = refl

Like-swap : (a b c : Walked) → Like (plus a (plus b c)) (plus b (plus a c))
Like-swap a b c = (
  or_swap a.walked_any b.walked_any c.walked_any,
  λ s.
      keys-plus b (plus a c) s
      ∙ ap (insert_all key_order (keys b)) (keys-plus a c s)
      ∙ insert_all_comm key_order (keys b) (keys a) (insert_all key_order (keys c) s)
      ∙ sym (keys-plus a (plus b c) s ∙ ap (insert_all key_order (keys a)) (keys-plus b c s)),
)

-- One entry, and what is behind it.
abbrev pub together : Result Walked → Result Walked → Result Walked
together here later = here >>= λ a. later >>= λ b. ok (plus a b)

pub Matches-refl : (r : Result Walked) → Matches r r
Matches-refl (ok v) = (v, refl, Like-refl v)
Matches-refl (err e) = tt
Matches-refl panic = tt

pub Matches-trans : (r s t : Result Walked) → Matches r s → Matches s t → Matches r t
Matches-trans (ok v) s t (w, e, (h, k)) m =
    let (u, f, (h', k')) = subst (λ s. Matches s t) e m in (u, f, (h' ∙ h, λ l. k' l ∙ k l))
Matches-trans (err e) s t h m = tt
Matches-trans panic s t h m = tt

pub Matches-together :
    (a a' b b' : Result Walked)
    → Matches a a'
    → Matches b b'
    → Matches (together a b) (together a' b')
Matches-together (ok v) a' (ok w) b' (v', e, h) (w', f, k) =
    (plus v' w', rw e (rw f refl), Like-plus v v' w w' h k)
Matches-together (ok v) a' (err e) b' h k = tt
Matches-together (ok v) a' panic b' h k = tt
Matches-together (err e) a' b b' h k = tt
Matches-together panic a' b b' h k = tt

pub Matches-swap :
    (a b c : Result Walked) → Matches (together a (together b c)) (together b (together a c))
Matches-swap (ok u) (ok v) (ok w) = (plus v (plus u w), refl, Like-swap u v w)
Matches-swap (ok u) (ok v) (err e) = tt
Matches-swap (ok u) (ok v) panic = tt
Matches-swap (ok u) (err e) c = tt
Matches-swap (ok u) panic c = tt
Matches-swap (err e) b c = tt
Matches-swap panic b c = tt
