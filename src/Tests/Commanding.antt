-- ===== src/Tests/Commanding.antt =====
-- The agent command: instances.
use vipnode.Base.{
  ℕ, ◌*◌, ◌^◌, ◌≡◌, refl, ◌↔◌, inl, inr, String, Bool, true, false, none, some, [], ◌∷◌, arith,
}
use vipnode.Base.Exec.{ok, err, panic}
use vipnode.Int.{pos}
use vipnode.Clock.{second}
use vipnode.Ethnode.Enode.{NodeUri}
use vipnode.Commands.{Attempt, network_error, running, log_level, retry, match_enode}
use vipnode.Commands.Retries.{IsQuick, log_level_panics, retry_waits}
use vipnode.Commands.Drift.{on_blocks, on_blocks-silent}
use vipnode.Commands.Runner.{
  loaded, AgentOptions, Surroundings, Runner, http_pool, load_agent, load_pool,
}
use vipnode.Commands.Runner.Loaded.{IsLoaded, load_agent-Loaded, load_pool-http}

log_level_panics_example : (log_level 3 ≡ err (panic "index out of range")) ↔ (◌≡◌ {A = ℕ} 3 3)
log_level_panics_example = log_level_panics 3

abbrev quick : Attempt
quick = record { failure = some network_error; lasted = second; interrupted = false }

abbrev long : Attempt
long = record quick { lasted = 400 * 10 ^ 9 }

quick-IsQuick : IsQuick quick
quick-IsQuick = (network_error, refl, refl, refl, omega arith)

retry_waits_example : retry 0 (quick ∷ quick ∷ long ∷ quick ∷ []) ≡ (5 ∷ 30 ∷ 60 ∷ 30 ∷ [], running)
retry_waits_example =
    retry_waits (quick ∷ quick ∷ []) long (quick ∷ []) (quick-IsQuick, (quick-IsQuick, tt))
      (network_error, refl, refl, refl, omega arith) (quick-IsQuick, tt)

on_blocks-silent_example : on_blocks ((10, 10) ∷ (10, 20) ∷ []) true ≡ ([], true)
on_blocks-silent_example =
    on_blocks-silent ((10, 10) ∷ (10, 20) ∷ []) (inl refl, (inr (omega arith), tt))

abbrev uri : NodeUri
uri = record {
  scheme = "https";
  path = "";
  host = "pool";
  hostname = "pool";
  username = some "key";
}

abbrev around : Bool → Surroundings Unit String
around full = record {
  find_rpc = λ path. ok tt;
  find_key = λ path. ok "key";
  id_of_key = λ k. k;
  enode = λ n. ok "enode://key@host";
  is_full_node = λ n. full;
  error_text = λ e. "error";
  parse_duration = λ s. ok (pos (60 * second));
  with_host = λ u h. ok u;
  reader = record { parse = λ s. ok uri; is_local_ip = λ s. false };
  add_static = λ s. ok tt;
  with_scheme = λ u s. u;
  uri_text = λ u. "https://pool";
  dial_socket = λ s. ok tt;
}

abbrev options : AgentOptions
options = record {
  rpc = "";
  node_key = "";
  node_uri = "";
  node_host = "";
  payout = "";
  update_interval = "60s";
  min_peers = pos 3;
  strict_peers = false;
  coordinator = "";
}

abbrev runner : Runner Unit String
runner = record {
  agent = record {
    node = tt;
    payout = "";
    interval = pos (60 * second);
    num_hosts = pos 3;
    strict = false;
    uri = "enode://key@host";
  };
  key = "key";
}

loaded_runner : load_agent (around false) none options ≡ loaded runner
unfolding load_agent match_enode
loaded_runner = refl

load_agent-Loaded_example : IsLoaded (around false) options runner
load_agent-Loaded_example = load_agent-Loaded (around false) none options runner loaded_runner

loaded_pool : load_pool (around false) runner "https://pool" ≡ loaded (http_pool "https://pool")
unfolding load_pool
loaded_pool = refl

load_pool-http_example : (around false).is_full_node runner.agent.node ≡ false
load_pool-http_example =
    load_pool-http (around false) runner "https://pool" "https://pool" loaded_pool
