-- ===== src/Zookeeper/Nodes.antt =====
-- discovery/zookeeper_client.go: one round of watchNode, up to its select. The calls of zookeeper,
-- the JSON library and net.LookupHost are parameters, with none for an error. The map of the infos,
-- which Go runs over in any order, is listed in the order of the nodes.
use mathlib.Core.List.{map}
use vermouth.Golib.Strconv.{itoa}
use vermouth.Prelude.{
  map-append, suc, refl, sym, ap, Option, none, some, List, [], Str, codes, ℤ, pos, negsuc, ◌≡◌,
  ◌∙◌, ◌∷◌, ◌++◌, nat_eq, str_eq,
}
use vermouth.Net.{Family, ipv4, ipv6, neither, valid_ip_address}
use vermouth.State.Events.{Event, add_host, remove_hosts}

-- The fields that are read.
pub record ZookeeperServiceInfo : Type 0 where
  pub address : Str
  pub port : ℤ

-- The zero value, which a map answers for a missing key.
abbrev no_info : ZookeeperServiceInfo
no_info = record { address = []; port = pos 0 }

abbrev info_or_zero : Option ZookeeperServiceInfo → ZookeeperServiceInfo
info_or_zero none = no_info
info_or_zero (some info) = info

-- fmt.Sprintf("%s:%d", ...)
unfoldable pub host_text : Str → ℤ → Str
host_text host (pos n) = host ++ (b':' ∷ itoa n)
host_text host (negsuc n) = host ++ (b':' ∷ b'-' ∷ itoa (suc n))

abbrev addresses : Option ZookeeperServiceInfo → List Str
addresses none = []
addresses (some info) = host_text info.address info.port ∷ []

module _ (get : Str → Option Str) (unmarshal : Str → Option ZookeeperServiceInfo)
    (lookup_host : Str → Option (List Str)) where
  -- The data of a node, if it can be had.
  unfoldable pub info_of : Str → Str → Option ZookeeperServiceInfo
  info_of service node = elim (get (codes "/services" ++ (b'/' ∷ (service ++ (b'/' ∷ node))))) [
    | none ↦ none
    | some text ↦ unmarshal text
  ]

  -- The hosts of the nodes whose data could be had.
  unfoldable pub cur_address : Str → List Str → List Str
  unfolding info_of
  cur_address service [] = []
  cur_address service (node ∷ nodes) = addresses (info_of service node) ++ cur_address service nodes

  -- What the lookup of a name gives, with the port.
  abbrev found_at : ℤ → Option (List Str) → List Str
  found_at port none = []
  found_at port (some addrs) = map (λ addr. host_text addr port) addrs

  -- The hosts that a node is registered with, by the family of its address.
  abbrev by_family : ZookeeperServiceInfo → Family → List Str
  by_family info ipv4 = host_text info.address info.port ∷ []
  by_family info ipv6 = []
  by_family info neither = found_at info.port (lookup_host info.address)

  abbrev pub hosts_of : ZookeeperServiceInfo → List Str
  hosts_of info = by_family info (valid_ip_address info.address)

  -- The loop over the nodes.
  unfoldable pub registered : Str → List Str → List Event
  unfolding info_of
  registered service [] = []
  registered service (node ∷ nodes) =
      map (add_host service) (hosts_of (info_or_zero (info_of service node)))
      ++ registered service nodes

  unfoldable pub watch_node : Str → List Str → List Event
  unfolding cur_address registered
  watch_node service nodes =
      remove_hosts service (cur_address service nodes) ∷ registered service nodes

  hosts_of-addresses :
      (o : Option ZookeeperServiceInfo)
      → lookup_host [] ≡ none
      → ((info : ZookeeperServiceInfo) → o ≡ some info → valid_ip_address info.address ≡ ipv4)
      → hosts_of (info_or_zero o) ≡ addresses o
  unfolding valid_ip_address vermouth.Golib.Strings.split
  hosts_of-addresses none unknown v4 = ap (found_at (pos 0)) unknown
  hosts_of-addresses (some info) unknown v4 = ap (by_family info) (v4 info refl)

  registered-cur_address :
      (service : Str) (nodes : List Str)
      → lookup_host [] ≡ none
      → ((node : Str) (info : ZookeeperServiceInfo)
          → info_of service node ≡ some info
          → valid_ip_address info.address ≡ ipv4)
      → registered service nodes ≡ map (add_host service) (cur_address service nodes)
  unfolding registered cur_address
  registered-cur_address service [] unknown v4 = refl
  registered-cur_address service (node ∷ nodes) unknown v4 =
      let o : Option ZookeeperServiceInfo = info_of service node in
      ap (λ hs. map (add_host service) hs ++ registered service nodes)
        (hosts_of-addresses o unknown (v4 node))
      ∙ ap (λ es. map (add_host service) (addresses o) ++ es)
          (registered-cur_address service nodes unknown v4)
      ∙ sym (map-append (add_host service) (addresses o) (cur_address service nodes))

  -- Where the nodes have IPv4 addresses, and no host has the empty name, a round of watchNode
  -- registers exactly the hosts that it reports as left.
  pub watch_node-cur_address :
      (service : Str) (nodes : List Str)
      → lookup_host [] ≡ none
      → ((node : Str) (info : ZookeeperServiceInfo)
          → info_of service node ≡ some info
          → valid_ip_address info.address ≡ ipv4)
      → watch_node service nodes
        ≡ remove_hosts service (cur_address service nodes)
          ∷ map (add_host service) (cur_address service nodes)
  unfolding watch_node
  watch_node-cur_address service nodes unknown v4 =
      ap (λ es. remove_hosts service (cur_address service nodes) ∷ es)
        (registered-cur_address service nodes unknown v4)
