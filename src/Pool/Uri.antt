-- ===== src/Pool/Uri.antt =====
-- pool/nodeuri.go: the URI under which a host is advertised. Parsing and printing of URLs are those
-- of the standard library, as parameters.
use vipnode.Base.{String, ◌||◌, ◌&&◌, not, ◌==◌, if◌then◌else◌}
use vipnode.Base.Exec.{Result, ok, err, external}
use vipnode.Base.Fallible.{◌>>=◌}

-- The parts of a parsed URL that are read, each empty if it is missing.
pub record Url : Type 0 where
  pub hostname : String
  pub port : String
  pub username : String

pub record UrlCodec : Type 0 where
  -- `url.Parse`, with `Hostname`, `Port` and `User.Username`
  pub parse : String → Result Url
  -- the text of the URL enode://username@host:port
  pub print : Url → String

abbrev pub non_empty : String → String → String
non_empty s d = if s == "" then d else s

-- The tests and replacements for a given node URI.
unfoldable pub merge_uri : Url → String → Url → Result Url
merge_uri defaults node_id uri =
    if not (uri.username == "") && not (uri.username == node_id)
    then err (external "nodeID does not match nodeURI")
    else ok (record defaults {
      hostname =
          if uri.hostname == "::" || uri.hostname == "" then defaults.hostname else uri.hostname;
      port = non_empty uri.port defaults.port;
    })

unfoldable pub normalize_node_uri : UrlCodec → String → String → String → String → Result String
unfolding merge_uri
normalize_node_uri codec node_uri node_id default_host default_port = do
  let defaults : Url = record { hostname = default_host; port = default_port; username = node_id }
  merged ←
      if node_uri == "" then ok defaults else (codec.parse node_uri >>= merge_uri defaults node_id)
  if merged.hostname == "" || merged.hostname == "[::]"
      then err (external "NodeURI is missing host")
      else ok (codec.print merged)
