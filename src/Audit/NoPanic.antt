-- ===== src/Audit/NoPanic.antt =====
-- The XDR readers return a value or an error on every input: no slice is out of range, and no
-- `expect` fails.
use Prim.Native.String.{String}
use sorseal.Base.{
  ℕ, zero, suc, ◌+◌, ◌-◌, refl, ap, leb, ◌≤◌, ◌≡◌, List, [], ◌∷◌, Option, none, some, inl, inr,
  arith, if◌then◌else◌, length, take, drop, Text, Bytes, Result, ok, err, ◌>>=◌, ◌>>◌, Option-cases,
  ok_or, bail_if, Message, Arg, true, false, Bool,
}
use sorseal.Interfaces.Encodings.{Base64}
use sorseal.Onchain.Cursor.{
  Cursor, from_be_bytes, checked_end, slice, array32, array32_lem, read_u32, take_bytes, expect_tag,
}
use sorseal.Onchain.Entry.{read_executable, wasm_hash_from_bytes, wasm_hash_from_entry}
use sorseal.Audit.Event.{
  read_symbol, is_update_symbol, is_executable_update, read_wasm_executable, decode_wasm_executable,
}

-- The call comes back, with a value or with an error.
pub data Returns {ℓ} {A : Type ℓ} : Result A → Type ℓ where
  value : (a : A) → Returns (ok a)
  error : (e : List Message) → Returns (err e)

pub Returns-bind {ℓ κ} :
    {A : Type ℓ} {B : Type κ} (m : Result A) (f : A → Result B)
    → Returns m
    → ((a : A) → Returns (f a))
    → Returns (m >>= f)
Returns-bind _ f (value a) k = k a
Returns-bind _ f (error e) k = error e

pub Returns-then {ℓ} :
    {B : Type ℓ} (m : Result (Unit {0})) (k : Result B) → Returns m → Returns k → Returns (m >> k)
Returns-then _ k (value a) h = h
Returns-then _ k (error e) h = error e

pub Returns-ok_or {ℓ} :
    {A : Type ℓ} (o : Option A) (s : String) (args : List Arg) → Returns (ok_or o s args)
Returns-ok_or none s args = error _
Returns-ok_or (some a) s args = value a

pub Returns-bail_if : (b : Bool) (s : String) (args : List Arg) → Returns (bail_if b s args)
Returns-bail_if true s args = error _
Returns-bail_if false s args = value tt

pub Returns-if {ℓ} :
    {A : Type ℓ} (b : Bool) (x y : Result A) → Returns x → Returns y → Returns (if b then x else y)
Returns-if true x y h k = h
Returns-if false x y h k = k

pub ruleset returns =
    (value, error, Returns-bind, Returns-then, Returns-ok_or, Returns-bail_if, Returns-if)

-- Four bytes make a word.
from_be_bytes-Returns : (bs : Bytes) → length bs ≡ 4 → Returns (from_be_bytes bs)
unfolding from_be_bytes
from_be_bytes-Returns (a ∷ b ∷ c ∷ d ∷ []) h = value _
from_be_bytes-Returns [] h = absurd (omega arith)
from_be_bytes-Returns (a ∷ []) h = absurd (omega arith)
from_be_bytes-Returns (a ∷ b ∷ []) h = absurd (omega arith)
from_be_bytes-Returns (a ∷ b ∷ c ∷ []) h = absurd (omega arith)
from_be_bytes-Returns (a ∷ b ∷ c ∷ d ∷ e ∷ bs) h = absurd (omega arith)

checked_end-bound :
    (cur : Cursor) (n end : ℕ)
    → checked_end cur n ≡ some end
    → (end ≡ cur.pos + n) × (end ≤ length cur.bytes)
unfolding checked_end
checked_end-bound cur n end h = (ground arith, ground arith)

length-take-drop : (i n : ℕ) (bs : Bytes) → i + n ≤ length bs → length (take n (drop i bs)) ≡ n
length-take-drop zero zero bs h = refl
length-take-drop zero (suc n) [] h = absurd (omega arith)
length-take-drop zero (suc n) (b ∷ bs) h = ap suc (length-take-drop zero n bs (omega arith))
length-take-drop (suc i) zero [] h = absurd (omega arith)
length-take-drop (suc i) (suc n) [] h = absurd (omega arith)
length-take-drop (suc i) n (b ∷ bs) h = length-take-drop i n bs (omega arith)

-- The checks of `checked_end` are those of the slice, which has the length asked for.
slice-checked_end :
    (cur : Cursor) (n end : ℕ)
    → checked_end cur n ≡ some end
    → (out : Bytes) × (slice cur.bytes cur.pos end ≡ ok out) × (length out ≡ n)
unfolding slice
slice-checked_end cur n end h =
    let (is_end, room) = checked_end-bound cur n end h in
    let starts : leb cur.pos end ≡ true = ground (arith, is_end) in
    let ends : leb end (length cur.bytes) ≡ true = ground (arith, room) in
    let width : end - cur.pos ≡ n = omega (arith, is_end) in
    (
      take n (drop cur.pos cur.bytes),
      rw starts (rw ends (rw width refl)),
      length-take-drop cur.pos n cur.bytes (omega (arith, is_end, room)),
    )

pub read_u32-Returns : (cur : Cursor) (what : String) → Returns (read_u32 cur what)
unfolding read_u32
read_u32-Returns cur what = elim (Option-cases (checked_end cur 4)) [
  | inl none_left ↦ rw (none_left, read_u32) (error _)
  | inr (end, room) ↦
      let (word, is_word, width) = slice-checked_end cur 4 end room in
      rw (room, read_u32)
        (rw is_word (Returns-bind _ _ (from_be_bytes-Returns word width) (λ v. value _)))
]

-- What is taken, where something is, has the length asked for.
data Takes (n : ℕ) : Result (Bytes × Cursor) → Type 0 where
  taken : (out : Bytes) (cur : Cursor) → length out ≡ n → Takes n (ok (out, cur))
  too_short : (e : List Message) → Takes n (err e)

take_bytes-Takes : (cur : Cursor) (n : ℕ) (what : String) → Takes n (take_bytes cur n what)
unfolding take_bytes
take_bytes-Takes cur n what = elim (Option-cases (checked_end cur n)) [
  | inl none_left ↦ rw (none_left, take_bytes) (too_short _)
  | inr (end, room) ↦
      let (out, is_out, width) = slice-checked_end cur n end room in
      rw (room, take_bytes) (rw is_out (taken out _ width))
]

Takes-Returns : {n : ℕ} (r : Result (Bytes × Cursor)) → Takes n r → Returns r
Takes-Returns _ (taken out cur e) = value _
Takes-Returns _ (too_short e) = error _

pub take_bytes-Returns : (cur : Cursor) (n : ℕ) (what : String) → Returns (take_bytes cur n what)
take_bytes-Returns cur n what = Takes-Returns _ (take_bytes-Takes cur n what)

-- The 32 bytes of a hash make an array.
hash-Returns :
    (r : Result (Bytes × Cursor))
    → Takes 32 r
    → Returns (r >>= λ (out, cur). array32 out >>= λ wasm. ok (some wasm))
hash-Returns _ (taken out cur e) = rw (array32_lem out e) (value _)
hash-Returns _ (too_short e) = error _

read_executable-Returns : (exec : ℕ) (cur : Cursor) → Returns (read_executable exec cur)
unfolding read_executable
read_executable-Returns exec cur =
    Returns-if _ _ _ (hash-Returns _ (take_bytes-Takes cur 32 "wasm hash"))
      (Returns-if _ _ _ (value _) (error _))

pub expect_tag-Returns :
    (cur : Cursor) (expected : ℕ) (what : String) → Returns (expect_tag cur expected what)
unfolding expect_tag
expect_tag-Returns cur expected what =
    Returns-bind _ _ (read_u32-Returns cur what)
      (λ (got, cur'). Returns-if _ _ _ (value _) (error _))

pub ruleset readers = (returns, read_u32-Returns, take_bytes-Returns, expect_tag-Returns)

read_symbol-Returns : (bs : Bytes) → Returns (read_symbol bs)
unfolding read_symbol
read_symbol-Returns bs = search readers depth 20

is_update_symbol-Returns : (r : Result (ℕ × Bytes)) → Returns r → Returns (is_update_symbol r)
unfolding is_update_symbol
is_update_symbol-Returns _ (value (tag, sym)) = value _
is_update_symbol-Returns _ (error e) = value _

is_executable_update-Returns : (B : Base64) (t : Text) → Returns (is_executable_update B t)
unfolding is_executable_update
is_executable_update-Returns B t = elim (Option-cases (B.decode t)) [
  | inl bad ↦ rw (bad, is_executable_update) (value _)
  | inr (bytes, good) ↦
      rw (good, is_executable_update) (is_update_symbol-Returns _ (read_symbol-Returns bytes))
]

wasm_hash_from_bytes-Returns : (bs : Bytes) → Returns (wasm_hash_from_bytes bs)
unfolding wasm_hash_from_bytes
wasm_hash_from_bytes-Returns bs = search (readers, read_executable-Returns) depth 30

read_wasm_executable-Returns : (bs : Bytes) → Returns (read_wasm_executable bs)
unfolding read_wasm_executable
read_wasm_executable-Returns bs = search readers depth 30

-- Whatever text a node sends for a ledger entry, reading it ends in a value or an error, and so
-- does reading any topic of an event, the name and the two executables: no slice is out of range, and no `expect` fails.
pub wasm_hash_from_entry-Returns :
    (B : Base64) (t : Text)
    → Returns (wasm_hash_from_entry B t)
      × Returns (decode_wasm_executable B t)
      × Returns (is_executable_update B t)
unfolding wasm_hash_from_entry decode_wasm_executable
wasm_hash_from_entry-Returns B t = (
  Returns-bind _ _ (Returns-ok_or _ _ _) wasm_hash_from_bytes-Returns,
  Returns-bind _ _ (Returns-ok_or _ _ _) read_wasm_executable-Returns,
  is_executable_update-Returns B t,
)
