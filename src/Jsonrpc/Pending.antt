-- ===== src/Jsonrpc/Pending.antt =====
-- The bound on the waiting calls.
use vipnode.Base.{
  ℕ, suc, ◌≤◌, ◌<◌, ◌≡◌, refl, String, Bool, true, false, none, some, List, [], ◌∷◌, All, All-take,
  take, length, arith, if_keeps, option_keeps, eq_refl, eq_iff, ap, ◌∙◌, if◌then◌else◌,
}
use vipnode.Dict.{Dict, get, set, remove, get_self, get-set}
use vipnode.Clock.{Time, before}
use vipnode.Jsonrpc.{
  PendingMsg, PendingItem, Remote, insert, sort, items, pending_oldest, delete_items, clean_pending,
  is_full, make_room, add_chan, get_pending_chan,
}

-- A key waits.
abbrev pub is_present : String → Dict PendingMsg → Bool
is_present k m = elim (get k m) [ none ↦ false | some _ ↦ true ]

present_after :
    (k : String) (m : Dict PendingMsg) {p : PendingMsg} → get k m ≡ some p → is_present k m ≡ true
present_after k m e = ap (λ o. elim o [ none ↦ false | some _ ↦ true ]) e

length-remove : (k : String) (m : Dict PendingMsg) → length (remove k m) ≤ length m
unfolding remove
length-remove k [] = omega arith
length-remove k ((j, v) ∷ m) = ground (arith, length-remove k m)

remove_present :
    (k : String) (m : Dict PendingMsg) → is_present k m ≡ true → length (remove k m) < length m
unfolding get remove
remove_present k [] h = cc
remove_present k ((j, v) ∷ m) h = ground (arith, h, remove_present k m, length-remove k m)

pub length-set :
    (k : String) (v : PendingMsg) (m : Dict PendingMsg) → length (set k v m) ≤ suc (length m)
unfolding set
length-set k v [] = omega arith
length-set k v ((j, w) ∷ m) = ground (arith, length-set k v m)

length-delete_items :
    (xs : List PendingItem) (m : Dict PendingMsg) → length (delete_items xs m) ≤ length m
unfolding delete_items
length-delete_items [] m = omega arith
length-delete_items (x ∷ xs) m =
    omega (arith, length-delete_items xs (remove x.key m), length-remove x.key m)

All-insert :
    (P : PendingItem → Type 0) (x : PendingItem) (ys : List PendingItem)
    → P x
    → All P ys
    → All P (insert x ys)
unfolding insert
All-insert P x [] h k = (h, tt)
All-insert P x (y ∷ ys) h k =
    if_keeps (All P) (before y.timestamp x.timestamp) (y ∷ insert x ys) (x ∷ y ∷ ys)
      (λ _. (k.0, All-insert P x ys h k.1)) (λ _. (h, k))

All-sort : (P : PendingItem → Type 0) (xs : List PendingItem) → All P xs → All P (sort xs)
unfolding sort
All-sort P [] h = tt
All-sort P (x ∷ xs) h = All-insert P x (sort xs) h.0 (All-sort P xs h.1)

length-insert : (x : PendingItem) (ys : List PendingItem) → length (insert x ys) ≡ suc (length ys)
unfolding insert
length-insert x [] = refl
length-insert x (y ∷ ys) = ground (arith, length-insert x ys)

length-sort : (xs : List PendingItem) → length (sort xs) ≡ length xs
unfolding sort
length-sort [] = refl
length-sort (x ∷ xs) = omega (arith, length-insert x (sort xs), length-sort xs)

length-items : (m : Dict PendingMsg) → length (items m) ≡ length m
unfolding items
length-items [] = refl
length-items ((k, p) ∷ m) = omega (arith, length-items m)

items-present :
    (m : Dict PendingMsg) (all : Dict PendingMsg)
    → ((k : String) → is_present k m ≡ true → is_present k all ≡ true)
    → All (λ x. is_present x.key all ≡ true) (items m)
unfolding items get
items-present [] all f = tt
items-present ((k, p) ∷ m) all f =
    (f k (ground (arith, eq_refl k)), items-present m all (λ j h. f j (ground (arith, h))))

take_nonempty : (n : ℕ) (xs : List PendingItem) → 0 < length xs → 0 < length (take (suc n) xs)
take_nonempty n [] h = h
take_nonempty n (x ∷ xs) h = omega arith

delete_items-shrinks :
    (xs : List PendingItem) (m : Dict PendingMsg)
    → 0 < length xs
    → All (λ x. is_present x.key m ≡ true) xs
    → length (delete_items xs m) < length m
unfolding delete_items
delete_items-shrinks [] m h all = omega arith
delete_items-shrinks (x ∷ xs) m h all =
    omega (arith, length-delete_items xs (remove x.key m), remove_present x.key m all.0)

-- Cleaning at least one of some entries leaves fewer.
clean_pending-shrinks :
    (n : ℕ) (r : Remote)
    → 0 < length r.pending
    → length (clean_pending (suc n) r).pending < length r.pending
unfolding clean_pending pending_oldest
clean_pending-shrinks n r some_pending =
    let m = r.pending in
    let sorted = sort (items m) in
    delete_items-shrinks (take (suc n) sorted) m
      (take_nonempty n sorted (omega (arith, length-sort (items m), length-items m)))
      (All-take (λ x. is_present x.key m ≡ true) (suc n) sorted
        (All-sort (λ x. is_present x.key m ≡ true) (items m) (items-present m m (λ k h. h))))

-- One call: the settings stay, and the limit is kept.
abbrev IsBounded : ℕ → ℕ → Remote → Type 0
IsBounded limit discard r =
    (r.pending_limit ≡ suc limit)
    × (r.pending_discard ≡ suc discard)
    × (length r.pending ≤ suc limit)

abbrev HasRoom : ℕ → ℕ → Remote → Type 0
HasRoom limit discard r =
    (r.pending_limit ≡ suc limit) × (r.pending_discard ≡ suc discard) × (length r.pending ≤ limit)

make_room-HasRoom :
    (limit discard : ℕ) (r : Remote)
    → IsBounded limit discard r
    → HasRoom limit discard (make_room r)
unfolding clean_pending
make_room-HasRoom limit discard r (l, d, h) =
    if_keeps (HasRoom limit discard) (is_full r) (clean_pending r.pending_discard r) r
      (λ full. (
        l,
        d,
        omega (
          arith,
          clean_pending-shrinks discard r (ground (arith, full, l)),
          ap (λ n. length (clean_pending n r).pending) d,
          h,
        ),
      ))
      (λ room. (l, d, ground (arith, room, l, d, h)))

add_chan-IsBounded :
    (now : Time) (key : String) (limit discard : ℕ) (r : Remote)
    → HasRoom limit discard r
    → IsBounded limit discard (add_chan now key r).1
add_chan-IsBounded now key limit discard r (l, d, h) =
    option_keeps (λ (made : ℕ × Remote). IsBounded limit discard made.1) (get key r.pending) _ _
      (λ e. (
        l,
        d,
        omega (
          arith,
          length-set key (record { msg_chan = r.made_chans; timestamp = now }) r.pending,
          h,
        ),
      ))
      (λ p e. (l, d, omega (arith, h)))

get_pending_chan-IsBounded :
    (now : Time) (key : String) (limit discard : ℕ) (r : Remote)
    → IsBounded limit discard r
    → IsBounded limit discard (get_pending_chan now key r).1
unfolding get_pending_chan
get_pending_chan-IsBounded now key limit discard r v =
    add_chan-IsBounded now key limit discard (make_room r) (make_room-HasRoom limit discard r v)

-- The calls of `getPendingChan`, each at its time.
unfoldable pub get_chans : List (Time × String) → Remote → Remote
get_chans [] r = r
get_chans ((now, key) ∷ rest) r = get_chans rest (get_pending_chan now key r).1

-- When there is a limit, a number to discard and no more waiting calls than the limit, there never
-- are more, whatever keys are asked for.
pub get_chans_bounded :
    (calls : List (Time × String)) (r : Remote) (limit discard : ℕ)
    → r.pending_limit ≡ suc limit
    → r.pending_discard ≡ suc discard
    → length r.pending ≤ suc limit
    → length (get_chans calls r).pending ≤ suc limit
unfolding get_chans
get_chans_bounded [] r limit discard l d h = h
get_chans_bounded ((now, key) ∷ rest) r limit discard l d h =
    let (l', d', h') = get_pending_chan-IsBounded now key limit discard r (l, d, h) in
    get_chans_bounded rest (get_pending_chan now key r).1 limit discard l' d' h'

-- After a call its key waits; a key that waited still does, unless old calls had to be discarded.
pub get_pending_chan_lem :
    (now : Time) (key : String) (r : Remote)
    → (is_present key (get_pending_chan now key r).1.pending ≡ true)
      × ((other : String) (p : PendingMsg)
          → is_full r ≡ false
          → get other r.pending ≡ some p
          → get other (get_pending_chan now key r).1.pending ≡ some p)
unfolding get_pending_chan
get_pending_chan_lem now key r = (
  option_keeps (λ (made : ℕ × Remote). is_present key made.1.pending ≡ true)
      (get key (make_room r).pending) _ _
      (λ e. present_after key _ (get_self key _ (make_room r).pending))
      (λ p e. present_after key (make_room r).pending e),
  λ other p room h.
      let waits =
        ap (λ b. get other (if b then clean_pending r.pending_discard r else r).pending) room ∙ h in
      option_keeps (λ (made : ℕ × Remote). get other made.1.pending ≡ some p)
        (get key (make_room r).pending) _ _
        (λ e. ground (
          arith,
          get-set key other (record { msg_chan = (make_room r).made_chans; timestamp = now })
              (make_room r).pending,
          eq_iff key other,
          e,
          waits,
        ))
        (λ q e. waits),
)
