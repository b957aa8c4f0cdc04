-- ===== src/Zookeeper/Tests.antt =====
-- discovery/zookeeper_client.go: examples.
use vermouth.State.Events.{add_host, remove_hosts}
use vermouth.Zookeeper.Nodes.{host_text, info_of, cur_address, registered, watch_node}
use vermouth.Prelude.{
  refl, some, List, [], Str, codes, str_beq, contains, ret, panic, pos, ◌≡◌, ◌∷◌, ◌>>=◌, nat_eq,
  str_eq,
}
use vermouth.Zookeeper.{ZookeeperDiscovery, new_zookeeper_discovery, watch_services, close_watchers}
use vermouth.Zookeeper.Follow.{Follows, rounds, last_listed, rounds-Follows}

abbrev shop : Str
shop = codes "shop"

abbrev cart : Str
cart = codes "cart"

abbrev listings : List (List Str)
listings = (shop ∷ cart ∷ []) ∷ (cart ∷ []) ∷ (shop ∷ []) ∷ []

new-Follows : Follows new_zookeeper_discovery
unfolding contains
new-Follows = record { watched = λ s. refl; idle = refl; told = λ s. refl }

-- A service that goes, comes back before its watcher has ended, and goes for good after that.
returns_early :
    (watch_services (shop ∷ []) new_zookeeper_discovery >>= λ a. watch_services [] a >>= λ b.
    watch_services (shop ∷ []) b >>= λ c. watch_services [] (close_watchers c.cancelled c))
    ≡ panic
unfolding watch_services vermouth.Prelude.str_beq close_watchers
returns_early = refl

rounds-Follows_example :
    (zk' : ZookeeperDiscovery) × (rounds listings new_zookeeper_discovery ≡ ret zk')
    × Follows zk'
    × (zk'.services ≡ last_listed [] listings)
rounds-Follows_example = rounds-Follows listings new_zookeeper_discovery new-Follows

-- A node whose host has a name is registered with the address of the name, which is not among the
-- hosts that are left.
named_node :
    watch_node
      (λ path. some path)
      (λ s. some (record { address = cart; port = pos 80 }))
      (λ name. some (codes "10.0.0.1" ∷ []))
      shop
      (codes "n" ∷ [])
    ≡ remove_hosts shop (codes "cart:80" ∷ []) ∷ add_host shop (codes "10.0.0.1:80") ∷ []
unfolding watch_node registered cur_address info_of host_text vermouth.Golib.Strconv.itoa
    vermouth.Net.valid_ip_address vermouth.Golib.Strings.split
named_node = refl
