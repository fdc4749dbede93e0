-- ===== src/Jsonrpc/Listed.antt =====
-- Methods that are not listed cannot be called: `Register` and `Handle` of jsonrpc2/server.go.
use Prim.Native.String.{◌++◌}
use text.Mathlib.TextLemmas.{append_cancel_left}
use vipnode.Base.{
  String, ◌≡◌, refl, ◌∙◌, true, false, some, none, List, [], ◌∷◌, ◌==◌, eq_iff, Bool-cases, inl,
  inr,
}
use vipnode.Base.Exec.{Result, ok, err, Error, rpc_error, Result-cases}
use vipnode.Int.{ℤ}
use vipnode.Dict.{Dict, get, set, get-set}
use vipnode.Jsonrpc.Errors.{method_not_found}
use vipnode.Jsonrpc.Server.{
  Context, Method, Json, passes, register_all, register, dispatch, handle, local_call,
  client_request, unmarshal_result, next_id, failed,
}

module _ (prefix : String) (only : List String) (name : String)
    (hidden : passes only name ≡ false) where
  other_key :
      (listed : String) → passes only listed ≡ true → (prefix ++ listed == prefix ++ name) ≡ false
  other_key listed h = elim (Bool-cases (prefix ++ listed == prefix ++ name)) [
    | inr other ↦ other
    | inl same ↦
        let e : listed ≡ name =
          append_cancel_left prefix listed name
            ((eq_iff (prefix ++ listed) (prefix ++ name)).0 same) in
        cc
  ]

module _ {S J : Type 0} (lower_first : String → String) (prefix : String) (only : List String)
    (name : String) (hidden : passes only name ≡ false) where
  get-register_all :
      (methods : List (String × Method S J)) (registry : Dict (Method S J))
      → get (prefix ++ name) registry ≡ none
      → get (prefix ++ name) (register_all lower_first prefix only methods registry) ≡ none
  unfolding register_all
  get-register_all [] registry h = h
  get-register_all ((n, m) ∷ rest) registry h = elim (Bool-cases (passes only (lower_first n))) [
    | inr unlisted ↦ rw (unlisted, register_all) (get-register_all rest registry h)
    | inl listed ↦
        rw (listed, register_all)
          (get-register_all rest (set (prefix ++ lower_first n) m registry) (
            get-set (prefix ++ lower_first n) (prefix ++ name) m registry
            ∙ (rw (other_key prefix only name hidden (lower_first n) listed) h)))
  ]

  get-register :
      (methods : Result (List (String × Method S J))) (registry : Dict (Method S J))
      → get (prefix ++ name) registry ≡ none
      → get (prefix ++ name) (register lower_first prefix only methods registry).1 ≡ none
  unfolding register
  get-register (err x) registry h = h
  get-register (ok []) registry h = h
  get-register (ok (m ∷ ms)) registry h = get-register_all (m ∷ ms) registry h

module _ {S J : Type 0} (json : Json J) (registry : Dict (Method S J)) (method : String)
    (absent : get method registry ≡ none) where
  dispatch-absent :
      (ctx : Context) (params : J) (s : S)
      → dispatch json ctx registry (record { method = method; params = params }) s
        ≡ (failed json method_not_found ("method not found: " ++ method), s)
  unfolding dispatch
  dispatch-absent ctx params s = rw (absent, dispatch) refl

  -- A call of a method that is not registered fails, and no method is called.
  pub unregistered-refused :
      (self : String) (params : List J) (s : S) (id : ℤ)
      → (x : Error) × (local_call json self registry method params (s, id)
          ≡ (err x, (s, next_id id)))
  unfolding local_call client_request handle unmarshal_result
  unregistered-refused self params s id = elim (Result-cases (json.marshal_id (next_id id))) [
    | inr (x, bad_id) ↦ (x, rw (bad_id, local_call) refl)
    | inl (text, good_id) ↦ elim (Result-cases (json.marshal_params params)) [
      | inr (x, bad) ↦ (x, rw (good_id, bad, local_call) refl)
      | inl (out, good) ↦ (
        rpc_error method_not_found ("method not found: " ++ method),
        rw (good_id, good, dispatch-absent (some self) out s, local_call) refl,
      )
    ]
  ]

-- Whatever methods a receiver has, one whose name is not among the listed ones cannot be called after
-- `Register`, if it could not before: the call fails, and the state of the receiver is not touched.
pub unlisted-refused :
    {S J : Type 0} (json : Json J) (lower_first : String → String) (self prefix name : String)
    (only : List String) (methods : Result (List (String × Method S J)))
    (registry : Dict (Method S J)) (params : List J) (s : S) (id : ℤ)
    → passes only name ≡ false
    → get (prefix ++ name) registry ≡ none
    → (x : Error) × (local_call json self
          (register lower_first prefix only methods registry).1
          (prefix ++ name)
          params
          (s, id)
        ≡ (err x, (s, next_id id)))
unlisted-refused json lower_first self prefix name only methods registry params s id hidden absent =
    unregistered-refused json (register lower_first prefix only methods registry).1 (prefix ++ name)
      (get-register lower_first prefix only name hidden methods registry absent) self params s id
