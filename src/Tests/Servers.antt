-- ===== src/Tests/Servers.antt =====
-- A counter that is registered with one of its two methods.
use vipnode.Base.{ℕ, ◌+◌, String, ◌≡◌, refl, none, some, List, [], ◌∷◌, ◌==◌, if◌then◌else◌}
use vipnode.Base.Exec.{ok, err, Error}
use vipnode.Int.{pos, ◌+ℤ◌}
use vipnode.Dict.{Dict, get, set}
use vipnode.Jsonrpc.Server.{Method, Json, register, local_call, next_id}
use vipnode.Jsonrpc.Listed.{unlisted-refused}

abbrev pub json : Json String
json = record {
  marshal = λ v. ok v;
  marshal_id = λ id. ok "1";
  marshal_params = λ l. ok "[]";
  null = "null";
  is_null = λ v. v == "null";
  error_text = λ x. "error";
  show = λ v. v;
}

abbrev count : Method ℕ String
count = record { parse_arguments = λ p. ok []; call = λ ctx args n. (ok (some "counted"), n + 1) }

abbrev clear : Method ℕ String
clear = record { parse_arguments = λ p. ok []; call = λ ctx args n. (ok none, 0) }

abbrev methods : List (String × Method ℕ String)
methods = ("Count", count) ∷ ("Clear", clear) ∷ []

abbrev lower_first : String → String
lower_first s = if s == "Count" then "count" else if s == "Clear" then "clear" else s

abbrev pub registry : Dict (Method ℕ String)
registry = (register lower_first "test_" ("count" ∷ []) (ok methods) []).1

listed_called :
    local_call json "local" registry "test_count" [] (4, pos 0) ≡ (ok (some "counted"), (5, pos 1))
unfolding local_call get next_id register ◌+ℤ◌ set
listed_called = refl

clear_absent : get {V = Method ℕ String} "test_clear" [] ≡ none
unfolding get
clear_absent = refl

unlisted-refused_example :
    (x : Error) × (local_call json "local" registry "test_clear" [] (4, pos 0)
      ≡ (err x, (4, next_id (pos 0))))
unlisted-refused_example =
    unlisted-refused json lower_first "local" "test_" "clear" ("count" ∷ []) (ok methods) [] [] 4
      (pos 0) refl clear_absent
