-- ===== src/Jsonrpc/Reflected.antt =====
-- jsonrpc2/method.go: which methods of a receiver can be called, and how. What reflection says of a
-- receiver is data; the functions of the borrowed files are parameters.
pub mod Lookup
pub mod Arguments
use vipnode.Base.{
  ℕ, zero, suc, String, Bool, true, false, ◌||◌, not, Option, none, some, List, [], ◌∷◌, ◌++◌, ◌==◌,
  ltb, nat_eq, length, if◌then◌else◌,
}
use vipnode.Base.Exec.{Exec, Result, ok, err, Error, external}
use vipnode.Base.Fallible.{◌>>=◌}
use vipnode.Int.{ℤ, pos, negsuc}
use vipnode.Dict.{Dict, set}
use vipnode.Jsonrpc.Errors.{
  receiver_hidden, method_hidden, args_hidden, unsupported_returns, wrong_number_of_args,
}

-- A `reflect.Type`: that of the receiver, `context.Context`, `error` or another one by its name.
pub data GoType : Type 0 where
  receiver_type context_type error_type : GoType
  named : String → GoType

-- A `reflect.Value` that is passed, with its type.
pub data Value (J : Type 0) : Type 0 where
  receiver_value : Value J
  context_value : Value J
  argument : GoType → J → Value J

-- A `reflect.Value` that is returned: one of the type `error`, which may be nil, or another one.
pub data Reply (J : Type 0) : Type 0 where
  error_reply : Option Error → Reply J
  reply : Option J → Reply J

-- `reflect.Method`, its arguments after the receiver. `func` is `Func.Call`.
pub record GoMethod (S J : Type 0) : Type 0 where
  pub name : String
  pub pkg_path : String
  pub ins : List GoType
  pub outs : List GoType
  pub func : List (Value J) → Exec S (List (Reply J))

-- The type of a receiver, without a pointer, and its method set.
pub record Receiver (S J : Type 0) : Type 0 where
  pub type_name : String
  pub method_set : List (GoMethod S J)

pub record Method (S J : Type 0) : Type 0 where
  pub method : GoMethod S J
  pub arg_types : List GoType
  pub err_pos : ℤ
  pub has_ctx : Bool

abbrev pub is_context : GoType → Bool
is_context context_type = true
is_context _ = false

abbrev pub is_error : GoType → Bool
is_error error_type = true
is_error _ = false

-- `methodArgTypes`, from one of the arguments on: the types, whether a context is among them, and
-- whether all are valid.
unfoldable pub method_arg_types :
    (GoType → Bool) → List GoType → List GoType → Bool → List GoType × Bool × Bool
method_arg_types is_valid [] types has_ctx = (types, has_ctx, true)
method_arg_types is_valid (t ∷ ins) types has_ctx =
    let rest =
      method_arg_types is_valid ins (if is_context t then types else types ++ (t ∷ []))
        (is_context t || has_ctx) in
    if is_valid t then rest else ([], has_ctx, false)

-- `methodErrPos`
unfoldable pub method_err_pos : List GoType → ℤ × Bool
method_err_pos [] = (negsuc 0, false)
method_err_pos (t ∷ []) = if is_error t then (pos 0, true) else (negsuc 0, true)
method_err_pos (t ∷ u ∷ []) = if is_error u then (pos 1, true) else (negsuc 0, false)
method_err_pos _ = (negsuc 0, false)

module _ {S J : Type 0} where
  abbrev pub find_method : String → List (GoMethod S J) → Option (GoMethod S J)
  find_method name [] = none
  find_method name (g ∷ rest) = if g.name == name then some g else find_method name rest

  -- The loop of `Methods` at one method: whether it is exported, and what is made of it.
  abbrev pub add_method :
      String → Bool → Option (Result (Method S J)) → Dict (Method S J) → Result (Dict (Method S J))
  add_method name false made methods = ok methods
  add_method name true none methods = ok methods
  add_method name true (some (err x)) methods = err x
  add_method name true (some (ok m)) methods = ok (set name m methods)

  -- `MethodByName` at a method
  abbrev pub choose_method : String → Bool → Option (Result (Method S J)) → Result (Method S J)
  choose_method name false made = err (method_hidden name)
  choose_method name true none = err (args_hidden name)
  choose_method name true (some r) = r

module _ {S J : Type 0} (is_valid : GoType → Bool) where
  -- What is made of a method: none, if its arguments are not valid.
  unfoldable pub load : GoMethod S J → Option (Result (Method S J))
  unfolding method_arg_types method_err_pos
  load g =
      let (types, has_ctx, valid) = method_arg_types is_valid g.ins [] false in
      let (err_pos, supported) = method_err_pos g.outs in
      if not valid
      then none
      else if not supported
      then some (err (unsupported_returns g.name))
      else some
          (ok (record { method = g; arg_types = types; err_pos = err_pos; has_ctx = has_ctx }))

  abbrev pub load_found : String → Option (GoMethod S J) → Result (Method S J)
  load_found name none = err (method_hidden name)
  load_found name (some g) = choose_method name (g.pkg_path == "") (load g)

  unfoldable pub load_all : List (GoMethod S J) → Dict (Method S J) → Result (Dict (Method S J))
  unfolding load
  load_all [] methods = ok methods
  load_all (g ∷ rest) methods =
      add_method g.name (g.pkg_path == "") (load g) methods >>= load_all rest

module _ {S J : Type 0} (is_exported : String → Bool) (is_valid : GoType → Bool) where
  -- `MethodByName`
  unfoldable pub method_by_name : Receiver S J → String → Result (Method S J)
  unfolding load
  method_by_name receiver name =
      if not (is_exported receiver.type_name)
      then err (receiver_hidden receiver.type_name)
      else load_found is_valid name (find_method name receiver.method_set)

  -- `Methods`
  unfoldable pub methods : Receiver S J → Result (Dict (Method S J))
  unfolding load_all
  methods receiver =
      if not (is_exported receiver.type_name)
      then err (receiver_hidden receiver.type_name)
      else load_all is_valid receiver.method_set []

module _ {J : Type 0} where
  -- `Interface()` of the value of an `error`, which is returned as the result, too
  abbrev pub reply_value : Reply J → Option J
  reply_value (error_reply e) = none
  reply_value (reply v) = v

  -- What the values that a method returned make of the call; a value that is not an error has no
  -- error.
  abbrev pub failure_of : Reply J → Option Error
  failure_of (error_reply e) = e
  failure_of (reply v) = none

  abbrev pub reply_at : ℤ → List (Reply J) → Option (Reply J)
  reply_at (negsuc _) replies = none
  reply_at (pos _) [] = none
  reply_at (pos zero) (r ∷ rest) = some r
  reply_at (pos (suc n)) (r ∷ rest) = reply_at (pos n) rest

  abbrev pub result_of : ℤ → List (Reply J) → Result (Option J)
  result_of err_pos [] = ok none
  result_of err_pos (r ∷ rest) = elim (reply_at err_pos (r ∷ rest)) [
    | none ↦ ok (reply_value r)
    | some at ↦ elim (failure_of at) [ some e ↦ err e | none ↦ ok (reply_value r) ]
  ]

module _ {S J : Type 0} where
  abbrev pub call_arguments : Method S J → List (Value J) → List (Value J)
  call_arguments m args = receiver_value ∷ (if m.has_ctx then context_value ∷ args else args)

  -- `Call`
  unfoldable pub call_method : Method S J → List (Value J) → Exec S (Option J)
  call_method m args s =
      if not (nat_eq (length args) (length m.arg_types))
      then (err wrong_number_of_args, s)
      else let (replies, s') = m.method.func (call_arguments m args) s in
        (elim replies [ err x ↦ err x | ok rs ↦ result_of m.err_pos rs ], s')
