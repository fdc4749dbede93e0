-- ===== src/Tests/Databases.antt =====
-- A badger database in memory: entries by key, some with a time at which they are gone.
use Prim.Native.String.{len, slice, ◌++◌}
use package.text.Mathlib.TextPositions.{slice-append_left, slice-append_right, len-append}
use vipnode.Base.{
  arith, eq_iff, Bool-cases, inl, inr, String, ◌≡◌, refl, ap, ◌∙◌, Bool, true, false, Option, none,
  some, List, [], ◌∷◌, ◌==◌, if◌then◌else◌,
}
use vipnode.Base.Exec.{Result, ok, err, key_not_found, external}
use vipnode.Int.{ℤ, ◌+ℤ◌}
use vipnode.Dict.{Dict, get, set, remove, get-set, get-remove}
use vipnode.Clock.{Time, before}
use vipnode.Store.{Node, Balance}
use vipnode.Tests.Fixtures.{now}
use vipnode.Badger.{has_name, Coder, IsCoder, Engine, EngineLaws}

pub data Item : Type 0 where
  text : String → Item
  number : ℤ → Item
  funds : Balance → Item
  host : Node → Item
  seen : Dict Time → Item

-- A value and the end of its life.
abbrev pub Entry : Type 0
Entry = Item × Option Time

pub record Database : Type 0 where
  pub entries : Dict Entry
  pub clock : Time

abbrev alive : Time → Option Time → Item → Result Item
alive time none v = ok v
alive time (some end) v = if before time end then ok v else err key_not_found

abbrev seen_at : Time → Option Entry → Result Item
seen_at time none = err key_not_found
seen_at time (some (v, end)) = alive time end v

abbrev read : String → Database → Result Item
read k t = seen_at t.clock (get k t.entries)

abbrev scan : String → Time → Dict Entry → List (String × Item)
scan start time [] = []
scan start time ((k, (v, end)) ∷ rest) =
    let others = scan start time rest in
    if slice k 0 (len start) == start
    then elim (alive time end v) [
      | ok x ↦ (slice k (len start) (len k), x) ∷ others
      | err x ↦ others
    ]
    else others

abbrev wrong : {A : Type 0} → Result A
wrong = err (external "gob: wrong type")

abbrev as_text : Item → Result (String)
as_text (text a) = ok a
as_text v = wrong

abbrev as_number : Item → Result (ℤ)
as_number (number a) = ok a
as_number v = wrong

abbrev as_funds : Item → Result (Balance)
as_funds (funds a) = ok a
as_funds v = wrong

abbrev as_host : Item → Result (Node)
as_host (host a) = ok a
as_host v = wrong

abbrev as_seen : Item → Result (Dict Time)
as_seen (seen a) = ok a
as_seen v = wrong

abbrev coder : {A : Type 0} → (A → Item) → (Item → Result A) → Coder Item A
coder f g = record { encode = λ a. ok (f a); decode = g }

abbrev pub engine : Engine Item Database
engine = record {
  at = λ now t. record t { clock = now };
  read = read;
  write = λ key v t. (ok tt, record t { entries = set key (v, none) t.entries });
  write_expiring =
      λ now ttl key v t. (ok tt, record t { entries = set key (v, some (now +ℤ ttl)) t.entries });
  delete = λ key t. (ok tt, record t { entries = remove key t.entries });
  scan = λ prefix t. scan prefix t.clock t.entries;
  held = λ keys. keys;
  commit = λ old new. none;
  shuffle = λ hosts. hosts;
  expires = λ now ttl. now +ℤ ttl;
  strings = coder text as_text;
  nonces = coder number as_number;
  balances = coder funds as_funds;
  nodes = coder host as_host;
  peers = coder seen as_seen;
  versions = coder number as_number;
}

coder-IsCoder :
    {A : Type 0} (f : A → Item) (g : Item → Result A)
    → ((a : A) → g (f a) ≡ ok a)
    → IsCoder (coder f g)
coder-IsCoder f g h = record { decode-encode = λ a. (f a, refl, h a) }

if_apart :
    {A C : Type 0} (f : A → C) (b : Bool) (x y : A)
    → f (if b then x else y) ≡ (if b then f x else f y)
if_apart f true x y = refl
if_apart f false x y = refl

-- An entry that can be read is visited.
scanned :
    (start id : String) (v : Item) (time : Time) (entries : Dict Entry)
    → seen_at time (get (start ++ id) entries) ≡ ok v
    → has_name id (scan start time entries) ≡ true
unfolding get
scanned start id v time [] h = cc
scanned start id v time ((k, (w, end)) ∷ rest) h = elim (Bool-cases (k == start ++ id)) [
  | inl here ↦
      let key = (eq_iff k (start ++ id)).0 here in
      let alive_here : alive time end w ≡ ok v = ground (arith, h, here) in
      let fits : (slice k 0 (len start) == start) ≡ true =
        (eq_iff (slice k 0 (len start)) start).1
          (ap (λ s. slice s 0 (len start)) key ∙ slice-append_left start id) in
      let name : slice k (len start) (len k) ≡ id =
        ap (λ s. slice s (len start) (len s)) key
        ∙ (ap (λ n. slice (start ++ id) (len start) n) (len-append start id)
            ∙ slice-append_right start id) in
      let visited = (eq_iff (slice k (len start) (len k)) id).1 name in
      ground (arith, alive_here, fits, visited)
  | inr other ↦
      let found : seen_at time (get (start ++ id) rest) ≡ ok v = ground (arith, h, other) in
      ground (arith, scanned start id v time rest found)
]

pub engine_laws : EngineLaws engine
engine_laws = record {
  write_ok = λ k v t. refl;
  read-write = λ k j v t.
      ap (seen_at t.clock) (get-set k j (v, none) t.entries)
      ∙ if_apart (seen_at t.clock) (k == j) (some (v, none)) (get j t.entries);
  write_expiring_ok = λ now ttl k v t. refl;
  read-at-write_expiring = λ now later ttl k j v t h.
      ap (seen_at later) (get-set k j (v, some (now +ℤ ttl)) t.entries)
      ∙ if_apart (seen_at later) (k == j) (some (v, some (now +ℤ ttl))) (get j t.entries);
  at_at = λ now later t h. refl;
  delete_ok = λ k t. refl;
  read-delete = λ k j t.
      ap (seen_at t.clock) (get-remove k j t.entries)
      ∙ if_apart (seen_at t.clock) (k == j) none (get j t.entries);
  scan_read = λ start id v t h. scanned start id v t.clock t.entries h;
  commits = λ t u. refl;
  strings = coder-IsCoder text as_text (λ a. refl);
  nonces = coder-IsCoder number as_number (λ a. refl);
  balances = coder-IsCoder funds as_funds (λ a. refl);
  nodes = coder-IsCoder host as_host (λ a. refl);
  peers = coder-IsCoder seen as_seen (λ a. refl);
  versions = coder-IsCoder number as_number (λ a. refl);
}

abbrev pub blank : Database
blank = record { entries = []; clock = now }
