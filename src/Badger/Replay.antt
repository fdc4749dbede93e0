-- ===== src/Badger/Replay.antt =====
-- What the nonces of pool/store/badger/badger.go keep out. An entry lives as long as the window of
-- nonces that are not too old, counted from the time at which it was saved.
pub mod Sequence
use vipnode.Base.{
  String, ◌≡◌, refl, ap, ◌∙◌, ◌&&◌, ◌||◌, Bool, true, false, inl, inr, Option, none, some,
  Bool-cases, if◌then◌else◌, eq_refl,
}
use vipnode.Base.Exec.{Result, ok, err, Error, invalid_nonce, key_not_found, Result-cases}
use vipnode.Int.{ℤ, pos, ◌+ℤ◌, ◌-ℤ◌, ◌≤ℤ◌, leb_ℤ, int_laws}
use vipnode.Clock.{Time, before}
use vipnode.Store.{expire_nonce}
use vipnode.Badger.{Engine, EngineLaws, find_item, get_item, set_expiring_item}
use vipnode.Badger.Keys.{Kind, print_key}
use vipnode.Badger.Items.{value_of, transaction-eq-ok, transaction-eq-err}
use vipnode.Badger.Nonces.{check_and_save_nonce, save_nonce, use_nonce, is_used}

abbrev pub is_old : Time → ℤ → Bool
is_old now nonce = leb_ℤ nonce (now -ℤ pos expire_nonce)

module _ {B T : Type 0} {e : Engine B T} (laws : EngineLaws e) where
  -- The database behind an accepted nonce.
  abbrev pub saved : Time → String → ℤ → T → T
  saved now id nonce t =
      (set_expiring_item e now (pos expire_nonce) e.nonces (print_key Kind.nonce id) nonce
        (e.at now t)).1

  set_expiring_ok :
      (now : Time) (ttl : ℤ) (key : String) (nonce : ℤ) (t : T)
      → (set_expiring_item e now ttl e.nonces key nonce t).0 ≡ ok tt
  unfolding set_expiring_item
  set_expiring_ok now ttl key nonce t =
      let (v, encoded, decoded) = laws.nonces.decode-encode nonce in
      rw (encoded, set_expiring_item) (laws.write_expiring_ok now ttl key v t)

  pub old-refused :
      (now : Time) (id : String) (nonce : ℤ) (t : T)
      → is_old now nonce ≡ true
      → check_and_save_nonce e now id nonce t ≡ (err invalid_nonce, t)
  unfolding check_and_save_nonce
  old-refused now id nonce t h = rw h refl

  pub used-refused :
      (now : Time) (id : String) (nonce : ℤ) (t : T) (last : Option ℤ)
      → is_old now nonce ≡ false
      → find_item e e.nonces (print_key Kind.nonce id) (e.at now t) ≡ ok last
      → is_used e last nonce ≡ true
      → check_and_save_nonce e now id nonce t ≡ (err invalid_nonce, e.at now t)
  unfolding check_and_save_nonce use_nonce
  used-refused now id nonce t last h found used = rw h (
      transaction-eq-err laws (use_nonce e now id nonce) (e.at now t) {u = e.at now t}
        (rw (found, used) refl))

  pub fresh-accepted :
      (now : Time) (id : String) (nonce : ℤ) (t : T) (last : Option ℤ)
      → is_old now nonce ≡ false
      → find_item e e.nonces (print_key Kind.nonce id) (e.at now t) ≡ ok last
      → is_used e last nonce ≡ false
      → check_and_save_nonce e now id nonce t ≡ (ok tt, saved now id nonce t)
  unfolding check_and_save_nonce use_nonce save_nonce
  fresh-accepted now id nonce t last h found used =
      let key = print_key Kind.nonce id in
      rw h (
        transaction-eq-ok laws (use_nonce e now id nonce) (e.at now t) (
          rw (found, used)
            (ap (λ r. (r, saved now id nonce t))
              (set_expiring_ok now (pos expire_nonce) key nonce (e.at now t)))))

  pub unread-fails :
      (now : Time) (id : String) (nonce : ℤ) (t : T) (x : Error)
      → is_old now nonce ≡ false
      → find_item e e.nonces (print_key Kind.nonce id) (e.at now t) ≡ err x
      → check_and_save_nonce e now id nonce t ≡ (err x, e.at now t)
  unfolding check_and_save_nonce use_nonce
  unread-fails now id nonce t x h found = rw h (
      transaction-eq-err laws (use_nonce e now id nonce) (e.at now t) {u = e.at now t}
        (rw found refl))

  -- An accepted nonce was saved.
  accepted-saved :
      (now : Time) (id : String) (nonce : ℤ) (t : T)
      → (check_and_save_nonce e now id nonce t).0 ≡ ok tt
      → (is_old now nonce ≡ false)
        × ((check_and_save_nonce e now id nonce t).1 ≡ saved now id nonce t)
  accepted-saved now id nonce t accepted = elim (Bool-cases (is_old now nonce)) [
    | inl h ↦ let f = old-refused now id nonce t h in cc
    | inr h ↦ elim (Result-cases (find_item e e.nonces (print_key Kind.nonce id) (e.at now t))) [
      | inr (x, found) ↦ let f = unread-fails now id nonce t x h found in cc
      | inl (last, found) ↦ elim (Bool-cases (is_used e last nonce)) [
        | inl used ↦ let f = used-refused now id nonce t last h found used in cc
        | inr unused ↦ (h, ap (λ p. p.1) (fresh-accepted now id nonce t last h found unused))
      ]
    ]
  ]

  pub written :
      (now : Time) (ttl : ℤ) (key : String) (nonce : ℤ) (v : B) (t : T)
      → e.nonces.encode nonce ≡ ok v
      → set_expiring_item e now ttl e.nonces key nonce t ≡ e.write_expiring now ttl key v t
  unfolding set_expiring_item
  written now ttl key nonce v t encoded = rw (encoded, set_expiring_item) refl

  read-own :
      (now later : Time) (key : String) (v : B) (t : T)
      → now ≤ℤ later
      → e.read key (e.at later (e.write_expiring now (pos expire_nonce) key v (e.at now t)).1)
        ≡ (if before later (e.expires now (pos expire_nonce)) then ok v else err key_not_found)
  read-own now later key v t h =
      laws.read-at-write_expiring now later (pos expire_nonce) key key v (e.at now t) h
      ∙ rw (eq_refl key) refl

  alive_or_gone :
      (v : B) (nonce : ℤ)
      → e.nonces.decode v ≡ ok nonce
      → (alive : Bool)
      → value_of e e.nonces (if alive then ok v else err key_not_found)
        ≡ ok (if alive then some nonce else none)
  alive_or_gone v nonce decoded true = rw decoded refl
  alive_or_gone v nonce decoded false = refl

  -- What is found later of a nonce that was saved.
  pub find-saved :
      (now later : Time) (id : String) (nonce : ℤ) (t : T)
      → now ≤ℤ later
      → find_item e e.nonces (print_key Kind.nonce id) (e.at later (saved now id nonce t))
        ≡ ok (if before later (e.expires now (pos expire_nonce)) then some nonce else none)
  unfolding find_item get_item
  find-saved now later id nonce t h =
      let key = print_key Kind.nonce id in
      let (v, encoded, decoded) = laws.nonces.decode-encode nonce in
      let ends = e.expires now (pos expire_nonce) in
      let after =
        λ (p : Result (Unit {0}) × T). value_of e e.nonces (e.read key (e.at later p.1)) in
      ap after (written now (pos expire_nonce) key nonce v (e.at now t) encoded)
      ∙ (ap (value_of e e.nonces) (read-own now later key v t h)
          ∙ alive_or_gone v nonce decoded (before later ends))

  -- Over the badger store, the outcome of a later request after one of the same node whose nonce
  -- was accepted, without calls in between: it is refused if its nonce is too old, or if the
  -- entry of the first is still there and the nonce is no greater; otherwise it is accepted.
  pub next_request :
      (now later : Time) (id : String) (nonce next : ℤ) (t : T)
      → (check_and_save_nonce e now id nonce t).0 ≡ ok tt
      → now ≤ℤ later
      → (check_and_save_nonce e later id next (check_and_save_nonce e now id nonce t).1).0 ≡ (
          if is_old later next
            || (before later (e.expires now (pos expire_nonce)) && leb_ℤ next nonce)
          then err invalid_nonce
          else ok tt)
  next_request now later id nonce next t accepted h =
      let (new, state) = accepted-saved now id nonce t accepted in
      let s = saved now id nonce t in
      let found = find-saved now later id nonce t h in
      rw state (elim (Bool-cases (is_old later next)) [
        | inl old ↦ ap (λ p. p.0) (old-refused later id next s old) ∙ rw old refl
        | inr young ↦ elim (Bool-cases (before later (e.expires now (pos expire_nonce)))) [
          | inr dead ↦
              ap (λ p. p.0) (fresh-accepted later id next s none young (found ∙ rw dead refl) refl)
              ∙ rw (young, dead) refl
          | inl alive ↦ elim (Bool-cases (leb_ℤ next nonce)) [
            | inl used ↦
                ap (λ p. p.0)
                  (used-refused later id next s (some nonce) young (found ∙ rw alive refl) used)
                ∙ rw (young, alive, used) refl
            | inr unused ↦
                ap (λ p. p.0)
                  (fresh-accepted later id next s (some nonce) young (found ∙ rw alive refl) unused)
                ∙ rw (young, alive, unused) refl
          ]
        ]
      ])
