-- ===== src/Ethnode/Enode.antt =====
-- ethnode/nodeuri.go: URIs of Ethereum nodes. Parsing of URLs and addresses is that of the standard
-- library, as a parameter.
use Prim.Native.String.{find, len, ◌++◌}
use text.Mathlib.Text.{starts_with}
use text.Mathlib.TextPositions.{starts_with-append}
use vipnode.Base.{
  ◌≡◌, ap, sym, ◌∙◌, arith, String, Bool, false, ◌||◌, ◌&&◌, not, Option, none, some, leb, ◌==◌,
  if◌then◌else◌,
}
use vipnode.Base.Exec.{Result, ok, err, external}
use vipnode.Base.Fallible.{◌>>=◌}

-- `NodeURI`, the fields of `url.URL` that are read; the host has the port, the host name has not.
pub record NodeUri : Type 0 where
  pub scheme : String
  pub path : String
  pub host : String
  pub hostname : String
  pub username : Option String

pub record UriReader : Type 0 where
  -- `url.Parse`
  pub parse : String → Result NodeUri
  -- `net.ParseIP(hostname)` is unspecified or a loopback address
  pub is_local_ip : String → Bool

-- `strings.Contains`
abbrev pub contains_text : String → String → Bool
contains_text s t = leb (find s t) (len s)

-- A text without a scheme is taken as an enode.
unfoldable pub with_scheme : String → String
with_scheme enode =
    if not (starts_with enode "enode://") && not (contains_text enode "://")
    then "enode://" ++ enode
    else enode

abbrev pub enode_only : NodeUri → Result NodeUri
enode_only u = if u.scheme == "enode" then ok u else err (external "invalid enode scheme")

-- `ParseNodeURI`
unfoldable pub parse_node_uri : UriReader → String → Result NodeUri
parse_node_uri reader enode = reader.parse (with_scheme enode) >>= enode_only

-- `ID`
unfoldable pub node_id : NodeUri → String
node_id u = if u.scheme == "" then u.path else elim u.username [ none ↦ u.host | some name ↦ name ]

-- `hasRemote`
unfoldable pub has_remote : UriReader → NodeUri → Bool
has_remote reader u = elim u.username [
  | none ↦ false
  | some name ↦ not (u.hostname == "localhost" || reader.is_local_ip u.hostname)
]

-- `RemoteAddress`
unfoldable pub remote_address : UriReader → NodeUri → String
unfolding has_remote
remote_address reader u = if has_remote reader u then u.host else ""

-- `RemoteHost`
unfoldable pub remote_host : UriReader → NodeUri → String
unfolding has_remote
remote_host reader u = if has_remote reader u then u.hostname else ""

with_scheme_prefixed : (s : String) → with_scheme ("enode://" ++ s) ≡ "enode://" ++ s
unfolding with_scheme
with_scheme_prefixed s = ground (arith, starts_with-append "enode://" s)

with_scheme_bare :
    (s : String)
    → starts_with s "enode://" ≡ false
    → contains_text s "://" ≡ false
    → with_scheme s ≡ "enode://" ++ s
unfolding with_scheme
with_scheme_bare s no_enode no_scheme = ground arith

-- The prefix "enode://" may be left out of a URI that has no scheme.
pub parse_node_uri-enode :
    (reader : UriReader) (s : String)
    → starts_with s "enode://" ≡ false
    → contains_text s "://" ≡ false
    → parse_node_uri reader ("enode://" ++ s) ≡ parse_node_uri reader s
unfolding parse_node_uri
parse_node_uri-enode reader s no_enode no_scheme =
    ap (λ t. reader.parse t >>= enode_only)
      (with_scheme_prefixed s ∙ sym (with_scheme_bare s no_enode no_scheme))
