-- ===== src/Jsonrpc/Reflected/Lookup.antt =====
-- `MethodByName` and `Methods` agree.
use vipnode.Base.{
  ◌≡◌, ◌∙◌, ap, subst, ◌↔◌, inl, inr, String, Bool, true, false, Option, none, some, List, [], ◌∷◌,
  ◌==◌, eq_iff, arith, if◌then◌else◌, Bool-cases,
}
use vipnode.Base.Exec.{Result, ok, err}
use vipnode.Base.Fallible.{chain_ok}
use vipnode.Dict.{Dict, get, get-set}
use vipnode.Jsonrpc.Reflected.{
  GoType, GoMethod, Receiver, Method, add_method, choose_method, load, find_method, load_found,
  method_by_name, load_all, methods,
}

-- No name stands twice.
abbrev pub DistinctNames : {S J : Type 0} → List (GoMethod S J) → Type 0
DistinctNames [] = Unit
DistinctNames (g ∷ rest) = (find_method g.name rest ≡ none) × DistinctNames rest

module _ {S J : Type 0} where
  -- What the loop of `Methods` leaves under the name of a method.
  abbrev kept : Bool → Option (Result (Method S J)) → Option (Method S J) → Option (Method S J)
  kept true (some (ok m)) before = some m
  kept _ _ before = before

  get-add_method :
      (name key : String) (shown : Bool) (made : Option (Result (Method S J)))
      (before mid : Dict (Method S J))
      → add_method name shown made before ≡ ok mid
      → get key mid ≡ (if name == key then kept shown made (get key before) else get key before)
  get-add_method name key false made before mid e = ground (arith, e)
  get-add_method name key true none before mid e = ground (arith, e)
  get-add_method name key true (some (err x)) before mid e = cc
  get-add_method name key true (some (ok m)) before mid e =
      ground (arith, e, get-set name key m before)

  choose_method-kept :
      (name : String) (shown : Bool) (made : Option (Result (Method S J))) (m : Method S J)
      → (choose_method name shown made ≡ ok m) ↔ (kept shown made none ≡ some m)
  choose_method-kept name false made m = ((λ e. cc), (λ e. cc))
  choose_method-kept name true none m = ((λ e. cc), (λ e. cc))
  choose_method-kept name true (some (err x)) m = ((λ e. cc), (λ e. cc))
  choose_method-kept name true (some (ok v)) m = ((λ e. cc), (λ e. cc))

module _ {S J : Type 0} (is_valid : GoType → Bool) where
  abbrev entry : Option (GoMethod S J) → Option (Method S J) → Option (Method S J)
  entry none before = before
  entry (some g) before = kept (g.pkg_path == "") (load is_valid g) before

  get-load_all :
      (key : String) (gs : List (GoMethod S J)) (before after : Dict (Method S J))
      → DistinctNames gs
      → load_all is_valid gs before ≡ ok after
      → get key after ≡ entry (find_method key gs) (get key before)
  unfolding load_all
  get-load_all key [] before after distinct e = ground (arith, e)
  get-load_all key (g ∷ rest) before after (once, distinct) e =
      let (mid, added, more) =
        chain_ok (add_method g.name (g.pkg_path == "") (load is_valid g) before)
          (load_all is_valid rest) e in
      let rec = get-load_all key rest mid after distinct more in
      let at_mid =
        get-add_method g.name key (g.pkg_path == "") (load is_valid g) before mid added in
      elim (Bool-cases (g.name == key)) [
        | inl same ↦
            let gone = subst (λ k. find_method k rest ≡ none) ((eq_iff g.name key).0 same) once in
            rw same (rec ∙ ap (λ o. entry o (get key mid)) gone ∙ (rw same at at_mid))
        | inr other ↦ rw other (rec ∙ ap (entry (find_method key rest)) (rw other at at_mid))
      ]

  load_found-entry :
      (name : String) (found : Option (GoMethod S J)) (m : Method S J)
      → (load_found is_valid name found ≡ ok m) ↔ (entry found none ≡ some m)
  load_found-entry name none m = ((λ e. cc), (λ e. cc))
  load_found-entry name (some g) m = choose_method-kept name (g.pkg_path == "") (load is_valid g) m

-- Of a receiver whose methods have different names and for which `Methods` succeeds: `MethodByName`
-- gives a method for a name exactly when `Methods` gives that method for it.
pub methods-method_by_name :
    {S J : Type 0} (is_exported : String → Bool) (is_valid : GoType → Bool)
    (receiver : Receiver S J) (found : Dict (Method S J)) (name : String) (m : Method S J)
    → DistinctNames receiver.method_set
    → methods is_exported is_valid receiver ≡ ok found
    → (method_by_name is_exported is_valid receiver name ≡ ok m) ↔ (get name found ≡ some m)
unfolding methods method_by_name get
methods-method_by_name is_exported is_valid receiver found name m distinct e =
    elim (Bool-cases (is_exported receiver.type_name)) [
      | inr hidden ↦ let bad = rw hidden at e in ((λ k. cc), (λ k. cc))
      | inl shown ↦
          let loaded =
            get-load_all is_valid name receiver.method_set [] found distinct (rw shown at e) in
          rw (shown, loaded)
            (load_found-entry is_valid name (find_method name receiver.method_set) m)
    ]
