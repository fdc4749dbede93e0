-- ===== src/Dict.antt =====
-- Go's maps with text keys, as association lists. The order of the list stands for an order in
-- which `range` may visit the map; a key stands in the list at most once (`Distinct`).
use vipnode.Base.{
  eq_refl, String, ◌≡◌, refl, Option, none, some, List, [], ◌∷◌, arith, ◌==◌, eq_iff, if◌then◌else◌,
}
use vipnode.Int.{ℤ, pos, ◌+ℤ◌, int_laws}

abbrev pub Dict : Type 0 → Type 0
Dict V = List (String × V)

module _ {V : Type 0} where
  -- `v, ok := m[k]`
  unfoldable pub get : String → Dict V → Option V
  get k [] = none
  get k ((j, v) ∷ m) = if j == k then some v else get k m

  -- `m[k]`, with the zero value `d` of a missing key
  abbrev pub index : String → V → Dict V → V
  index k d m = elim (get k m) [ none ↦ d | some v ↦ v ]

  -- `m[k] = v`
  unfoldable pub set : String → V → Dict V → Dict V
  set k v [] = (k, v) ∷ []
  set k v ((j, w) ∷ m) = if j == k then (j, v) ∷ m else (j, w) ∷ set k v m

  -- `delete(m, k)`
  unfoldable pub remove : String → Dict V → Dict V
  remove k [] = []
  remove k ((j, v) ∷ m) = let rest = remove k m in if j == k then rest else (j, v) ∷ rest

  unfoldable pub values : Dict V → List V
  values [] = []
  values ((j, v) ∷ m) = v ∷ values m

  -- No key stands twice.
  abbrev pub Distinct : Dict V → Type 0
  Distinct [] = Unit
  Distinct ((j, v) ∷ m) = (get j m ≡ none) × Distinct m

  pub get-set :
      (k j : String) (v : V) (m : Dict V) → get j (set k v m) ≡ (if k == j then some v else get j m)
  unfolding get set
  get-set k j v [] = ground arith
  get-set k j v ((i, w) ∷ m) = ground (arith, get-set k j v m, eq_iff i k, eq_iff i j, eq_iff k j)

  pub get-remove :
      (k j : String) (m : Dict V) → get j (remove k m) ≡ (if k == j then none else get j m)
  unfolding get remove
  get-remove k j [] = ground arith
  get-remove k j ((i, w) ∷ m) = ground (arith, get-remove k j m, eq_iff i k, eq_iff i j, eq_iff k j)

  pub get_self : (k : String) (v : V) (m : Dict V) → get k (set k v m) ≡ some v
  get_self k v m = ground (arith, get-set k k v m, eq_refl k)

  pub get_removed : (k : String) (m : Dict V) → get k (remove k m) ≡ none
  get_removed k m = ground (arith, get-remove k k m, eq_refl k)

  pub set-Distinct : (k : String) (v : V) (m : Dict V) → Distinct m → Distinct (set k v m)
  unfolding set get
  set-Distinct k v [] h = (refl, tt)
  set-Distinct k v ((i, w) ∷ m) h =
      ground (arith, set-Distinct k v m h.1, get-set k i v m, eq_iff i k, eq_iff k i)

  pub remove-Distinct : (k : String) (m : Dict V) → Distinct m → Distinct (remove k m)
  unfolding remove
  remove-Distinct k [] h = tt
  remove-Distinct k ((i, w) ∷ m) h =
      ground (arith, remove-Distinct k m h.1, get-remove k i m, eq_iff i k, eq_iff k i)

pub ruleset dict_laws = (get-set, get-remove)

-- The sum of a measure over the values.
module _ {V : Type 0} (f : V → ℤ) where
  unfoldable pub total : Dict V → ℤ
  total [] = pos 0
  total ((j, v) ∷ m) = f v +ℤ total m

module _ {V : Type 0} (f : V → ℤ) (d : V) (zero_value : f d ≡ pos 0) where
  -- A write moves the sum by the new value less the old one.
  pub total-set :
      (k : String) (v : V) (m : Dict V) → total f (set k v m) +ℤ f (index k d m) ≡ total f m +ℤ f v
  unfolding total set get
  total-set k v [] = grind int_laws
  total-set k v ((j, w) ∷ m) = grind (int_laws, total-set k v m)

  total-remove_absent : (k : String) (m : Dict V) → get k m ≡ none → remove k m ≡ m
  unfolding remove get
  total-remove_absent k [] h = refl
  total-remove_absent k ((j, w) ∷ m) h = ground (arith, total-remove_absent k m)

  pub total-remove :
      (k : String) (m : Dict V) → Distinct m → total f (remove k m) +ℤ f (index k d m) ≡ total f m
  unfolding total remove get
  total-remove k [] h = grind int_laws
  total-remove k ((j, w) ∷ m) h =
      grind (int_laws, total-remove k m h.1, total-remove_absent k m, eq_iff j k)
