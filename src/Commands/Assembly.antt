-- ===== src/Commands/Assembly.antt =====
-- pool.go: what the pool command is put together from. Files, the Ethereum client, the keystore and the
-- template of messages are parameters; the explanations of errors are left out.
use vipnode.Base.{
  ◌*◌, List, ℕ, ◌≡◌, ◌∙◌, ap, String, Bool, true, false, ◌||◌, Option, none, some, ◌∷◌, ◌++◌, ◌==◌,
  arith, if◌then◌else◌,
}
use vipnode.Base.Exec.{Result, ok, err, external, invalid_interval}
use vipnode.Clock.{Time, second}
use vipnode.Store.{Node}
use vipnode.Store.Driver.{Driver}
use vipnode.Balance.{PayPerInterval, on_update}
use vipnode.Base.Fallible.{◌>>=◌, ◌>>◌, chain_ok}
use vipnode.Int.{ℤ, pos, ◌-ℤ◌, eqb_ℤ}
use vipnode.Ethnode.{codes, lowers_to, network_string, parse_network}
use vipnode.Pretty.{Text, parse_ether}
use vipnode.Pretty.Parse.{AreDigits, number_text, parse_ether-wei}

pub record PoolOptions : Type 0 where
  pub store : String
  pub data_dir : String
  pub contract_addr : String
  pub contract_rpc : String
  pub key_store : String
  pub price : String
  pub min_balance : String
  pub welcome : String
  pub restrict_network : String
  pub max_request_hosts : ℤ

pub data StoreKind : Type 0 where
  memory_store badger_store : StoreKind

-- `C` is an Ethereum client and `K` a key that signs transactions; a URL is its scheme and its host. The
-- opening of the store and of the contract stand in Badger/Migration.antt and Payment/Contract.antt; here only
-- whether they succeed is read.
pub record PoolAround (C K : Type 0) : Type 0 where
  pub data_home : String
  pub make_dirs : String → Result (Unit {0})
  pub open_badger : String → Result (Unit {0})
  pub parse_url : String → Result (String × String)
  pub dial : String → Result C
  pub network_of : C → Result ℤ
  pub unlock : String → Result K
  pub contract_payment : String → C → Option K → Result (Unit {0})
  pub parse_template : String → Result (Unit {0})
  pub is_other_number : ℕ → Bool
  pub set_int : Text → Option ℤ

-- What the service is started with. Without a contract there is no settlement.
pub record PoolSetup : Type 0 where
  pub store : StoreKind
  pub has_contract : Bool
  pub credit_per_interval : ℤ
  pub least_balance : Option ℤ
  pub network : ℤ
  pub max_hosts : ℤ

-- The fee and the minimum of withdrawals
abbrev pub pool_withdraw_fee : ℤ → ℤ
pool_withdraw_fee amount = amount -ℤ pos 2500000000000000

abbrev pub pool_withdraw_min : ℤ
pool_withdraw_min = pos 5000000000000000

-- `NetworkID.Is`
unfoldable pub network_is : ℤ → String → Bool
network_is id name = lowers_to name (network_string id)

module _ {C K : Type 0} (around : PoolAround C K) where
  -- `findDataDir`
  abbrev pub find_data_dir : String → Result String
  find_data_dir path =
      let dir = if path == "" then around.data_home else path in do around.make_dirs dir; ok dir

  abbrev pub open_store : String → String → Result StoreKind
  open_store kind dir =
      if kind == "memory"
      then ok memory_store
      else if kind == "persist" || kind == "badger"
      then (do path ← find_data_dir dir; around.open_badger path; ok badger_store)
      else err (external "storage driver not implemented")

  abbrev pub same_network : ℤ → String → Result (Unit {0})
  same_network id name =
      if network_is id name
      then ok tt
      else err (external "ethereum network mismatch for payment contract")

  abbrev pub unlock_key : String → Result (Option K)
  unlock_key path = if path == "" then ok none else (do k ← around.unlock path; ok (some k))

  abbrev pub setup_contract : PoolOptions → Result Bool
  setup_contract options = if options.contract_addr == "" then ok false else do
    (scheme, hostname) ← around.parse_url options.contract_addr
    client ← around.dial options.contract_rpc
    id ← around.network_of client
    same_network id scheme
    key ← unlock_key options.key_store
    around.contract_payment hostname client key
    ok true

  abbrev pub amount_of : String → String → Result ℤ
  amount_of why text = elim (parse_ether around.is_other_number around.set_int (codes text)) [
    | ok n ↦ ok n
    | err e ↦ err (external why)
  ]

  abbrev pub least_balance_of : String → Result (Option ℤ)
  least_balance_of text =
      if text == "off"
      then ok none
      else (do n ← amount_of "failed to parse contract minimum balance" text; ok (some n))

  abbrev pub check_template : String → Result (Unit {0})
  check_template text = if text == "" then ok tt else around.parse_template text

  -- `UnknownNetwork` is 0, as is the network of a pool that is not restricted.
  abbrev pub restricted_to : String → Result ℤ
  restricted_to name =
      if name == ""
      then ok (pos 0)
      else if eqb_ℤ (parse_network name) (pos 0)
      then err (external "unknown network")
      else ok (parse_network name)

  -- `runPool`, up to the registration of the services
  unfoldable pub setup_pool : PoolOptions → Result PoolSetup
  setup_pool options = do
    kind ← open_store options.store options.data_dir
    contract ← setup_contract options
    price ← amount_of "failed to parse contract price" options.price
    least ← least_balance_of options.min_balance
    check_template options.welcome
    network ← restricted_to options.restrict_network
    ok (record {
      store = kind;
      has_contract = contract;
      credit_per_interval = price;
      least_balance = least;
      network = network;
      max_hosts = options.max_request_hosts;
    })

-- The settings of the balance manager: an interval of a minute
abbrev pub pool_charges : PoolSetup → PayPerInterval
pool_charges setup = record {
  interval = pos (60 * second);
  credit_per_interval = setup.credit_per_interval;
  min_balance = setup.least_balance;
}

price_of_wei :
    {C K : Type 0} (around : PoolAround C K) (options : PoolOptions) (setup : PoolSetup)
    (negative : Bool) (w : ℕ) (ws : Text)
    → AreDigits (w ∷ ws)
    → codes options.price ≡ number_text negative w ws none ++ codes " wei"
    → setup_pool around options ≡ ok setup
    → setup.credit_per_interval ≡ pos 0
unfolding setup_pool
price_of_wei around options setup negative w ws whole priced h =
    let (kind, _, h1) = chain_ok (open_store around options.store options.data_dir) _ h in
    let (contract, _, h2) = chain_ok (setup_contract around options) _ h1 in
    let (price, known, h3) =
      chain_ok (amount_of around "failed to parse contract price" options.price) _ h2 in
    let (least, _, h4) = chain_ok (least_balance_of around options.min_balance) _ h3 in
    let (_, _, h5) = chain_ok (check_template around options.welcome) _ h4 in
    let (network, _, h6) = chain_ok (restricted_to around options.restrict_network) _ h5 in
    let parsed =
      ap (parse_ether around.is_other_number around.set_int) priced
      ∙ parse_ether-wei around.is_other_number around.set_int negative w ws whole in
    let free : price ≡ pos 0 = ground (arith, parsed, known) in
    let kept : setup.credit_per_interval ≡ price = ground (arith, h6) in kept ∙ free

-- A pool that is started with a price that is a whole number of wei, written with its unit, has a price of
-- 0, and its balance manager refuses every update of a client for its settings: nothing is credited or
-- charged.
pub on_update-setup_pool :
    {C K S : Type 0} (around : PoolAround C K) (options : PoolOptions) (setup : PoolSetup)
    (negative : Bool) (w : ℕ) (ws : Text) (store : Driver S) (now : Time) (node : Node)
    (peers : List Node) (s : S)
    → AreDigits (w ∷ ws)
    → codes options.price ≡ number_text negative w ws none ++ codes " wei"
    → setup_pool around options ≡ ok setup
    → node.is_host ≡ false
    → (setup.credit_per_interval ≡ pos 0)
      × (on_update store (pool_charges setup) now node peers s ≡ (err invalid_interval, s))
unfolding on_update
on_update-setup_pool around options setup negative w ws store now node peers s whole priced started
      client =
    let free = price_of_wei around options setup negative w ws whole priced started in
    (free, ground (arith, free, client))
