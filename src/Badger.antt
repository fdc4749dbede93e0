-- ===== src/Badger.antt =====
-- pool/store/badger: the driver that keeps the store in a badger database. The database and the gob
-- encoding are parameters.
pub mod Keys
pub mod Items
pub mod Nonces
pub mod Balances
pub mod Nodes
pub mod Peers
pub mod Driver
pub mod Book
pub mod Replay
pub mod Migration
pub mod Upgrade
pub mod Versions
use Prim.Native.String.{◌++◌}
use vipnode.Base.{
  ℕ, String, ◌≡◌, Bool, true, false, Option, none, some, List, [], ◌∷◌, if◌then◌else◌, ◌==◌, ◌||◌,
}
use vipnode.Base.Exec.{Exec, Result, ok, err, Error, key_not_found, continue, lift, ◌>>=◌}
use vipnode.Int.{ℤ, ◌+ℤ◌, ◌≤ℤ◌}
use vipnode.Dict.{Dict}
use vipnode.Clock.{Time, before}
use vipnode.Store.{Node, Balance}

-- The gob encoding of one type, into a fresh value. `B` is the type of encoded values.
pub record Coder (B A : Type 0) : Type 0 where
  pub encode : A → Result B
  pub decode : B → Result A

pub record IsCoder {B A : Type 0} (c : Coder B A) : Type 0 where
  pub decode-encode : (a : A) → (b : B) × (c.encode a ≡ ok b) × (c.decode b ≡ ok a)

-- What the driver uses of badger and gob. `T` is what a transaction sees of the database.
pub record Engine (B T : Type 0) : Type 0 where
  -- the database as it is seen from a later time on: expired entries are gone
  pub at : Time → T → T
  -- `txn.Get` and `Item.Value`
  pub read : String → T → Result B
  -- `txn.Set`, `txn.SetEntry` with a time to live, at a time, and `txn.Delete`
  pub write : String → B → Exec T (Unit {0})
  pub write_expiring : Time → ℤ → String → B → Exec T (Unit {0})
  pub delete : String → Exec T (Unit {0})
  -- an iterator over a prefix: what follows the prefix in each key, and its value
  pub scan : String → T → List (String × B)
  -- what the slices that `Item.Key` gave on the rounds of a loop hold when the transaction commits, from
  -- the keys that they held when they were given
  pub held : List String → List String
  -- the end of `db.Update`, from the old and the new database
  pub commit : T → T → Option Error
  -- `rand.Shuffle`
  pub shuffle : List Node → List Node
  -- the time at which an entry with a time to live, written at a time, is gone
  pub expires : Time → ℤ → Time
  pub strings : Coder B String
  pub nonces : Coder B ℤ
  pub balances : Coder B Balance
  pub nodes : Coder B Node
  pub peers : Coder B (Dict Time)
  pub versions : Coder B ℤ

-- Whether an iterator visits a name.
abbrev pub has_name : {B : Type 0} → String → List (String × B) → Bool
has_name id [] = false
has_name id ((i, v) ∷ rest) = i == id || has_name id rest

-- What badger and gob document, for a database that no one else writes and whose entries fit: writes
-- succeed and are read back, other keys are left alone, an iterator visits what can be read, a transaction
-- commits, and a value that is
-- encoded is decoded.
pub record EngineLaws {B T : Type 0} (e : Engine B T) : Type 0 where
  pub write_ok : (k : String) (v : B) (t : T) → (e.write k v t).0 ≡ ok tt
  pub read-write :
      (k j : String) (v : B) (t : T)
      → e.read j (e.write k v t).1 ≡ (if k == j then ok v else e.read j t)
  pub write_expiring_ok :
      (now : Time) (ttl : ℤ) (k : String) (v : B) (t : T)
      → (e.write_expiring now ttl k v t).0 ≡ ok tt
  pub read-at-write_expiring :
      (now later : Time) (ttl : ℤ) (k j : String) (v : B) (t : T)
      → now ≤ℤ later
      → e.read j (e.at later (e.write_expiring now ttl k v t).1) ≡ (
          if k == j
          then (if before later (e.expires now ttl) then ok v else err key_not_found)
          else e.read j (e.at later t))
  pub at_at : (now later : Time) (t : T) → now ≤ℤ later → e.at later (e.at now t) ≡ e.at later t
  pub delete_ok : (k : String) (t : T) → (e.delete k t).0 ≡ ok tt
  pub read-delete :
      (k j : String) (t : T)
      → e.read j (e.delete k t).1 ≡ (if k == j then err key_not_found else e.read j t)
  pub scan_read :
      (prefix id : String) (v : B) (t : T)
      → e.read (prefix ++ id) t ≡ ok v
      → has_name id (e.scan prefix t) ≡ true
  pub commits : (t u : T) → e.commit t u ≡ none
  pub strings : IsCoder e.strings
  pub nonces : IsCoder e.nonces
  pub balances : IsCoder e.balances
  pub nodes : IsCoder e.nodes
  pub peers : IsCoder e.peers
  pub versions : IsCoder e.versions

module _ {B T : Type 0} (e : Engine B T) where
  -- `getItem`
  unfoldable pub get_item : {A : Type 0} → Coder B A → String → T → Result A
  get_item c key t = elim (e.read key t) [ err x ↦ err x | ok v ↦ c.decode v ]

  -- A value that may be missing: `err != nil && err != badger.ErrKeyNotFound` fails.
  abbrev pub optional : {A : Type 0} → Result A → Result (Option A)
  optional (ok a) = ok (some a)
  optional (err key_not_found) = ok none
  optional (err x) = err x

  unfoldable pub find_item : {A : Type 0} → Coder B A → String → T → Result (Option A)
  unfolding get_item
  find_item c key t = optional (get_item c key t)

  -- `hasKey`
  unfoldable pub has_key : String → T → Bool
  has_key key t = elim (e.read key t) [ err x ↦ false | ok v ↦ true ]

  -- `setItem`
  unfoldable pub set_item : {A : Type 0} → Coder B A → String → A → Exec T (Unit {0})
  set_item c key a t = elim (c.encode a) [ err x ↦ (err x, t) | ok v ↦ e.write key v t ]

  -- `setExpiringItem`
  unfoldable pub set_expiring_item :
      {A : Type 0} → Time → ℤ → Coder B A → String → A → Exec T (Unit {0})
  set_expiring_item now ttl c key a t = elim (c.encode a) [
    | err x ↦ (err x, t)
    | ok v ↦ e.write_expiring now ttl key v t
  ]

  -- The values of a loop over a prefix, each decoded afresh; the first that fails ends it.
  unfoldable pub decode_all :
      {A : Type 0} → Coder B A → List (String × B) → Result (List (String × A))
  decode_all c [] = ok []
  decode_all c ((k, v) ∷ rest) =
      let tail = decode_all c rest in
      elim (c.decode v) [
        | err x ↦ err x
        | ok a ↦ elim tail [ err x ↦ err x | ok l ↦ ok ((k, a) ∷ l) ]
      ]

  -- `loopItem`
  unfoldable pub loop_items : {A : Type 0} → Coder B A → String → T → Result (List (String × A))
  unfolding decode_all
  loop_items c prefix t = decode_all c (e.scan prefix t)

  abbrev pub reading : {A : Type 0} → (T → Result A) → Exec T A
  reading f t = (f t, t)

  -- `db.View`: nothing is written.
  abbrev pub view : {A : Type 0} → Exec T A → Exec T A
  view f t = ((f t).0, t)

  -- `db.Update`: an error of the function or of the commit drops the writes.
  abbrev pub commit_all : {A : Type 0} → Result A → T → T → Result A × T
  commit_all (err x) old new = (err x, old)
  commit_all (ok a) old new = elim (e.commit old new) [ none ↦ (ok a, new) | some x ↦ (err x, old) ]

  abbrev pub transaction : {A : Type 0} → Exec T A → Exec T A
  transaction f t = let (r, t') = f t in commit_all r t t'
