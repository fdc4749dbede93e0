-- ===== src/Commands.antt =====
-- main.go: the level of the log, the match of an enode with a node, and the loop that starts a
-- command again.
pub mod Retries
pub mod Runner
pub mod Drift
pub mod Server
pub mod Assembly
use vipnode.Base.{
  ℕ, zero, suc, ◌+◌, ◌-◌, ◌*◌, ◌^◌, String, Bool, true, false, ◌||◌, not, Option, none, some, List,
  [], ◌∷◌, ◌==◌, ltb, if◌then◌else◌,
}
use vipnode.Base.Exec.{Result, ok, err, Error, external, panic}
use vipnode.Ethnode.Enode.{NodeUri, UriReader, contains_text}

pub data Level : Type 0 where
  warning info debug : Level

-- `logLevels[numVerbose]`, with the code's bound on the number of flags
abbrev pub bounded_flags : ℕ → ℕ
bounded_flags n = if ltb 3 n then 2 else n

abbrev pub level_at : ℕ → Result Level
level_at zero = ok warning
level_at (suc zero) = ok info
level_at (suc (suc zero)) = ok debug
level_at _ = err (panic "index out of range")

unfoldable pub log_level : ℕ → Result Level
log_level flags = level_at (bounded_flags flags)

-- How a command failed: at the end of a connection, with an `ErrExplainRetry`, with an error of the
-- network, or with another error, of a text.
pub data Failure : Type 0 where
  end_of_file retry_error network_error : Failure
  other_error : String → Failure

-- One run of a command: how it failed, how many nanoseconds it took, and whether a signal comes in
-- the wait after it.
pub record Attempt : Type 0 where
  pub failure : Option Failure
  pub lasted : ℕ
  pub interrupted : Bool

-- How the loop ends; at the end of the given attempts it is still running.
pub data Ended : Type 0 where
  succeeded stopped running : Ended
  failed_with : Failure → Ended

-- The text of a `NoHostNodesError` that has tried no nodes
abbrev pub no_hosts_text : String
no_hosts_text = "no host nodes available"

abbrev pub is_retried : Failure → Bool
is_retried (other_error text) = text == no_hosts_text
is_retried _ = true

-- `backoff`, in seconds
abbrev pub wait_time : ℕ → ℕ
wait_time zero = 5
wait_time (suc zero) = 30
wait_time (suc (suc zero)) = 60
wait_time (suc (suc (suc zero))) = 90
wait_time _ = 300

-- The counter of the next round: a run of more than 300 seconds sets it to 0 before the loop adds 1.
abbrev pub next_count : ℕ → Attempt → ℕ
next_count i a = suc (if ltb (300 * 10 ^ 9) a.lasted then 0 else i)

abbrev pub end_round : Attempt → ℕ → List ℕ × Ended → List ℕ × Ended
end_round a wait (waits, ended) =
    if a.interrupted then (wait ∷ [], stopped) else (wait ∷ waits, ended)

abbrev pub after_failure : Option Failure → Attempt → ℕ → List ℕ × Ended → List ℕ × Ended
after_failure none a wait rest = ([], succeeded)
after_failure (some e) a wait rest =
    if is_retried e then end_round a wait rest else ([], failed_with e)

-- The loop of `subcommand`, from the count `i` on: the waits, in seconds, and how it ends.
unfoldable pub retry : ℕ → List Attempt → List ℕ × Ended
retry i [] = ([], running)
retry i (a ∷ rest) = after_failure a.failure a (wait_time i) (retry (next_count i a) rest)

-- `Username` of the user of a URI, which may be missing
abbrev pub username_of : Result NodeUri → Result String
username_of (err e) = err (external "failed to parse enode URI")
username_of (ok u) = elim u.username [ none ↦ ok "" | some name ↦ ok name ]

abbrev pub enode_name : UriReader → String → Result String
enode_name reader enode =
    if contains_text enode "://" then username_of (reader.parse enode) else ok enode

-- Without the prefixes of the two keys that its text has
abbrev pub mismatch : Error
mismatch = external "enode URI does not match node key"

abbrev pub same_node : String → Result String → Result (Unit {0})
same_node node_id (err e) = err e
same_node node_id (ok name) = if name == node_id then ok tt else err mismatch

-- `matchEnode`
unfoldable pub match_enode : UriReader → String → String → Result (Unit {0})
match_enode reader enode node_id = same_node node_id (enode_name reader enode)
