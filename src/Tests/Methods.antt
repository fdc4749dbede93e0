-- ===== src/Tests/Methods.antt =====
-- A receiver with a method that takes a context first, and one that takes it last.
use vipnode.Base.{◌≡◌, refl, ◌↔◌, String, true, some, [], ◌∷◌, map}
use vipnode.Base.Exec.{ok}
use vipnode.Int.{pos}
use vipnode.Dict.{Dict, get, set}
use vipnode.Jsonrpc.Reflected.{
  receiver_type, context_type, error_type, named, argument, GoMethod, Receiver, Method, load,
  method_by_name, load_all, methods, call_arguments, method_arg_types, method_err_pos,
}
use vipnode.Jsonrpc.Reflected.Lookup.{methods-method_by_name}
use vipnode.Jsonrpc.Reflected.Arguments.{type_of, is_leading, call_arguments-fit}

abbrev ping : GoMethod Unit String
ping = record {
  name = "Ping";
  pkg_path = "";
  ins = context_type ∷ named "string" ∷ [];
  outs = error_type ∷ [];
  func = λ args s. (ok [], s);
}

abbrev late : GoMethod Unit String
late = record ping { name = "Late"; ins = named "string" ∷ context_type ∷ [] }

abbrev service : Receiver Unit String
service = record { type_name = "Service"; method_set = late ∷ ping ∷ [] }

abbrev loaded_ping : Method Unit String
loaded_ping = record {
  method = ping;
  arg_types = named "string" ∷ [];
  err_pos = pos 0;
  has_ctx = true;
}

abbrev loaded_late : Method Unit String
loaded_late = record loaded_ping { method = late }

abbrev found : Dict (Method Unit String)
found = ("Late", loaded_late) ∷ ("Ping", loaded_ping) ∷ []

methods-service : methods (λ s. true) (λ t. true) service ≡ ok found
unfolding methods load_all load method_arg_types method_err_pos set
methods-service = refl

methods-method_by_name_example :
    (method_by_name (λ s. true) (λ t. true) service "Ping" ≡ ok loaded_ping)
    ↔ (get "Ping" found ≡ some loaded_ping)
methods-method_by_name_example =
    methods-method_by_name (λ s. true) (λ t. true) service found "Ping" loaded_ping
      (refl, (refl, tt)) methods-service

load-late : load (λ t. true) late ≡ some (ok loaded_late)
unfolding load method_arg_types method_err_pos
load-late = refl

call_arguments-fit_example :
    (map type_of (call_arguments loaded_late (argument (named "string") "a" ∷ []))
      ≡ receiver_type ∷ named "string" ∷ context_type ∷ [])
    ↔ (is_leading (named "string" ∷ context_type ∷ []) ≡ true)
call_arguments-fit_example =
    call_arguments-fit (λ t. true) late loaded_late (argument (named "string") "a" ∷ []) load-late
      refl
