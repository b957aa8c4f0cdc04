-- ===== src/Zookeeper.antt =====
-- discovery/zookeeper_client.go: watchServices, which compares the services that zookeeper lists with
-- those of the last time, and tells the state manager. zookeeper is not code of the repository: each
-- round is given what it lists. A watcher of a service that was cancelled is another goroutine, which
-- forgets the service some time later.
pub mod Follow
pub mod Nodes
pub mod Watchers
mod Tests
use vermouth.Prelude.{
  List, [], Str, contains, Go, ret, panic, ◌∷◌, ◌++◌, ◌==◌, if◌then◌else◌, ◌>>=◌, ◌>>◌, nat_eq,
  str_eq,
}
use vermouth.State.Events.{Event, add_service, remove_service}

-- The keys of the maps Services and Shutdown, the services whose watcher was cancelled and still
-- runs, and the events that were sent.
pub record ZookeeperDiscovery : Type 0 where
  pub services : List Str
  pub shutdown : List Str
  pub cancelled : List Str
  pub events : List Event

-- NewZookeeperDiscovery
abbrev pub new_zookeeper_discovery : ZookeeperDiscovery
new_zookeeper_discovery = record { services = []; shutdown = []; cancelled = []; events = [] }

-- The loop over the services of the last time: the cancel function of a service without a watcher
-- is nil, and panics.
unfoldable pub remove_gone : List Str → List Str → ZookeeperDiscovery → Go ZookeeperDiscovery
unfolding contains
remove_gone current [] zk = ret zk
remove_gone current (last ∷ services) zk =
    if contains current last
    then remove_gone current services zk
    else if contains zk.shutdown last
    then remove_gone current services (record zk {
      cancelled = zk.cancelled ++ last ∷ [];
      events = zk.events ++ remove_service last ∷ [];
    })
    else panic

-- The loop over the services that are listed.
unfoldable pub add_new : List Str → ZookeeperDiscovery → ZookeeperDiscovery
unfolding contains
add_new [] zk = zk
add_new (service ∷ current) zk =
    if contains zk.shutdown service
    then add_new current zk
    else add_new current (record zk {
      shutdown = zk.shutdown ++ service ∷ [];
      events = zk.events ++ add_service service ∷ [];
    })

-- One round of watchServices.
unfoldable pub watch_services : List Str → ZookeeperDiscovery → Go ZookeeperDiscovery
unfolding remove_gone add_new
watch_services current zk = do
  removed ← remove_gone current zk.services zk
  ret (record (add_new current removed) { services = current })

-- delete(zk.Shutdown, service)
unfoldable pub delete_key : List Str → Str → List Str
delete_key [] s = []
delete_key (x ∷ xs) s = if x == s then delete_key xs s else x ∷ delete_key xs s

-- The end of watchNode, for the first of the watchers that were cancelled.
unfoldable pub close_watchers : List Str → ZookeeperDiscovery → ZookeeperDiscovery
unfolding delete_key
close_watchers [] zk = record zk { cancelled = [] }
close_watchers (service ∷ services) zk =
    close_watchers services (record zk { shutdown = delete_key zk.shutdown service })
