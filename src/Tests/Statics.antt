-- ===== src/Tests/Statics.antt =====
-- The static pool: runs and instances.
use vipnode.Base.{String, false, some, List, [], ◌∷◌, ◌==◌, if◌then◌else◌}
use vipnode.Base.Exec.{ok, err, external}
use vipnode.Dict.{get}
use vipnode.Ethnode.Enode.{UriReader}
use vipnode.Pool.Static.{StaticPool, IsStatic}

-- A reader that knows one enode.
abbrev reader : UriReader
reader = record {
  parse = λ s.
      if s == "enode://near@host:30303"
      then ok (record {
        scheme = "enode";
        path = "";
        host = "host:30303";
        hostname = "host";
        username = some "near";
      })
      else err (external "invalid URI");
  is_local_ip = λ hostname. false;
}

abbrev empty : StaticPool
empty = record { node_store = []; latest_block_number = 0 }

empty-IsStatic : IsStatic empty
unfolding get
empty-IsStatic = record { distinct = tt; self = λ id n h. cc }

abbrev uris : List String
uris = "near@host:30303" ∷ "http://host" ∷ []
