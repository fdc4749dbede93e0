-- ===== src/Badger/Nonces.antt =====
-- `CheckAndSaveNonce` of pool/store/badger/badger.go. It reads the clock more than once; the readings of one
-- call are taken as one.
use vipnode.Base.{String, ◌&&◌, Option, none, some, if◌then◌else◌, ltb, Bool, false}
use vipnode.Base.Exec.{Exec, err, invalid_nonce, raise_if, ◌>>=◌, ◌>>◌}
use vipnode.Int.{ℤ, pos, ◌-ℤ◌, leb_ℤ}
use vipnode.Clock.{Time}
use vipnode.Store.{expire_nonce}
use vipnode.Badger.{Engine, find_item, set_item, set_expiring_item, reading, transaction}
use vipnode.Badger.Keys.{print_key, Kind}

module _ {B T : Type 0} (e : Engine B T) where
  -- The lifetime is 15 minutes; at 0 it would not be looked at.
  unfoldable pub save_nonce : Time → String → ℤ → Exec T (Unit {0})
  save_nonce now key nonce =
      if ltb 0 expire_nonce
      then set_expiring_item e now (pos expire_nonce) e.nonces key nonce
      else set_item e e.nonces key nonce

  abbrev pub is_used : Option ℤ → ℤ → Bool
  is_used none nonce = false
  is_used (some last) nonce = leb_ℤ nonce last

  -- The transaction of `CheckAndSaveNonce`.
  unfoldable pub use_nonce : Time → String → ℤ → Exec T (Unit {0})
  unfolding save_nonce
  use_nonce now id nonce = do
    last ← reading e (find_item e e.nonces (print_key Kind.nonce id))
    raise_if (is_used last nonce) invalid_nonce
    save_nonce now (print_key Kind.nonce id) nonce

  unfoldable pub check_and_save_nonce : Time → String → ℤ → Exec T (Unit {0})
  check_and_save_nonce now id nonce t =
      if ltb 0 expire_nonce && leb_ℤ nonce (now -ℤ pos expire_nonce)
      then (err invalid_nonce, t)
      else transaction e (use_nonce now id nonce) (e.at now t)
