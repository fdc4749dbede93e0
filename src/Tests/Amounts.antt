-- ===== src/Tests/Amounts.antt =====
-- Amounts, and the price of a pool: instances.
use vipnode.Base.{◌*◌, ◌^◌, ◌≡◌, refl, false, true, none, some, [], ◌∷◌, arith}
use vipnode.Base.Exec.{ok, err, invalid_interval}
use vipnode.Balance.{on_update}
use vipnode.Memory.Driver.{memory_driver}
use vipnode.Tests.Fixtures.{now, client, near, state}
use vipnode.Int.{pos, ◌*ℤ◌, ◌/ℤ◌, ◌-ℤ◌}
use vipnode.Ethnode.{codes, lower, lowers_to, network_string}
use vipnode.Pretty.{
  multiplier, trim_left, trim_right, parse_ether, ether_string, float_string, digits_from,
  split_number, set_rat, scan, in_wei,
}
use vipnode.Pretty.Parse.{parse_ether-number}
use vipnode.Commands.Assembly.{
  PoolOptions, PoolAround, PoolSetup, memory_store, setup_pool, network_is, pool_charges,
  on_update-setup_pool,
}
use vipnode.Pretty.Print.{ether_string-tenfold}

-- "-1.25 Gwei"
parse_ether-number_example :
    parse_ether (λ c. false) (λ s. none) (codes "-1.25 Gwei") ≡ ok (pos 0 -ℤ pos 1250000000)
unfolding multiplier lower trim_left trim_right ◌*ℤ◌ ◌/ℤ◌ ◌-ℤ◌
parse_ether-number_example =
    parse_ether-number (λ c. false) (λ s. none) true b'1' [] (some (b'2' ∷ b'5' ∷ [])) b' '
      (codes "Gwei") (10 ^ 9) (refl, tt) (refl, (refl, tt)) refl refl

abbrev around : PoolAround Unit Unit
around = record {
  data_home = "home";
  make_dirs = λ d. ok tt;
  open_badger = λ d. ok tt;
  parse_url = λ u. ok ("mainnet", "0x0");
  dial = λ u. ok tt;
  network_of = λ c. ok (pos 1);
  unlock = λ p. ok tt;
  contract_payment = λ a c k. ok tt;
  parse_template = λ t. ok tt;
  is_other_number = λ c. false;
  set_int = λ t. none;
}

abbrev options : PoolOptions
options = record {
  store = "memory";
  data_dir = "";
  contract_addr = "mainnet://0x0";
  contract_rpc = "";
  key_store = "";
  price = "100 wei";
  min_balance = "off";
  welcome = "";
  restrict_network = "";
  max_request_hosts = pos 3;
}

abbrev setup : PoolSetup
setup = record {
  store = memory_store;
  has_contract = true;
  credit_per_interval = pos 0;
  least_balance = none;
  network = pos 0;
  max_hosts = pos 3;
}

setup_pool-options : setup_pool around options ≡ ok setup
unfolding setup_pool network_is lowers_to network_string lower parse_ether split_number set_rat scan
    multiplier in_wei trim_left trim_right ◌*ℤ◌ ◌/ℤ◌
setup_pool-options = refl

on_update-setup_pool_example :
    (setup.credit_per_interval ≡ pos 0)
    × (on_update memory_driver (pool_charges setup) now client (near ∷ []) state
        ≡ (err invalid_interval, state))
on_update-setup_pool_example =
    on_update-setup_pool around options setup false b'1' (b'0' ∷ b'0' ∷ []) memory_driver now client
      (near ∷ []) state (refl, (refl, (refl, tt))) refl setup_pool-options refl

ether_string-tenfold_example :
    ether_string (pos (1 * 10 * 10 ^ 18)) ≡ ether_string (pos (1 * 10 ^ 18))
ether_string-tenfold_example = ether_string-tenfold 1 (omega arith)

one_ether : ether_string (pos (10 ^ 18)) ≡ codes "1 ether"
unfolding ether_string float_string digits_from trim_right
one_ether = refl

some_gwei : ether_string (pos 0 -ℤ pos 10000000) ≡ codes "-0.01 gwei"
unfolding ether_string float_string digits_from trim_right ◌-ℤ◌
some_gwei = refl

zero_wei : ether_string (pos 0) ≡ codes "0 wei"
unfolding ether_string float_string digits_from trim_right
zero_wei = refl
