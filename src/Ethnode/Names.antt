-- ===== src/Ethnode/Names.antt =====
-- Names of kinds and networks, printed and parsed.
use vipnode.Base.{
  ℕ, String, ◌≡◌, refl, Bool, true, false, ◌||◌, ◌&&◌, leb, nat_eq, if_keeps, arith, if◌then◌else◌,
}
use vipnode.Int.{ℤ, pos, negsuc, eqb_ℤ}
use vipnode.Ethnode.{
  NodeKind, unknown, geth, parity, pantheon, kind_string, parse_node_kind, network_string,
  parse_network,
}

-- A kind that is printed is parsed back, the unknown one too.
pub parse_node_kind-kind_string : (k : NodeKind) → parse_node_kind (kind_string k) ≡ k
unfolding parse_node_kind kind_string
parse_node_kind-kind_string geth = refl
parse_node_kind-kind_string parity = refl
parse_node_kind-kind_string pantheon = refl
parse_node_kind-kind_string unknown = refl

-- The networks that have a name.
abbrev pub is_named : ℤ → Bool
is_named (pos n) = (leb 1 n && leb n 6) || nat_eq n 42
is_named (negsuc n) = false

abbrev P : ℤ → String → Type 0
P id s = parse_network s ≡ (if is_named id then id else pos 0)

hit :
    (id : ℤ) (n : ℕ)
    → is_named (pos n) ≡ true
    → eqb_ℤ id (pos n) ≡ true
    → pos n ≡ (if is_named id then id else pos 0)
hit (pos m) n named h = ground arith
hit (negsuc m) n named h = ground arith

miss :
    (id : ℤ)
    → eqb_ℤ id (pos 1) ≡ false
    → eqb_ℤ id (pos 2) ≡ false
    → eqb_ℤ id (pos 3) ≡ false
    → eqb_ℤ id (pos 4) ≡ false
    → eqb_ℤ id (pos 42) ≡ false
    → eqb_ℤ id (pos 5) ≡ false
    → eqb_ℤ id (pos 6) ≡ false
    → pos 0 ≡ (if is_named id then id else pos 0)
miss (pos n) a b c d e f g = ground arith
miss (negsuc n) a b c d e f g = refl

-- A named network is parsed from its name; any other is printed as "unknown", which is parsed as 0.
pub parse_network-network_string :
    (id : ℤ) → parse_network (network_string id) ≡ (if is_named id then id else pos 0)
unfolding parse_network network_string
parse_network-network_string id =
    if_keeps (P id) (eqb_ℤ id (pos 1)) "mainnet" _ (hit id 1 refl) λ h1.
      if_keeps (P id) (eqb_ℤ id (pos 2)) "morden" _ (hit id 2 refl) λ h2.
        if_keeps (P id) (eqb_ℤ id (pos 3)) "ropsten" _ (hit id 3 refl) λ h3.
          if_keeps (P id) (eqb_ℤ id (pos 4)) "rinkeby" _ (hit id 4 refl) λ h4.
            if_keeps (P id) (eqb_ℤ id (pos 42)) "kovan" _ (hit id 42 refl) λ h42.
              if_keeps (P id) (eqb_ℤ id (pos 5)) "goerli" _ (hit id 5 refl) λ h5.
                if_keeps (P id) (eqb_ℤ id (pos 6)) "kotti" _ (hit id 6 refl)
                  λ h6. miss id h1 h2 h3 h4 h42 h5 h6
