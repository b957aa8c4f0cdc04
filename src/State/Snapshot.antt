-- ===== src/State/Snapshot.antt =====
-- vermouth/context.go and vermouth/start.go: snapshots of the table. The JSON library is a parameter:
-- `encode` and `decode` go from the decoded text to the text and back, with none for an error. A range
-- over a table meets the proxies in the order of the list.
use vermouth.Prelude.{
  Bool, true, false, Option, none, some, [], Str, Go, ret, ℤ, ◌&&◌, ◌∷◌, if◌then◌else◌, ◌>>=◌,
  nat_eq, str_eq,
}
use vermouth.Prelude.Int.{int_eq}
use vermouth.Prelude.Map
use vermouth.Prelude.Map.{Map}
use vermouth.Rate.{RateLib}
use vermouth.Proxy
use vermouth.Proxy.{HttpReverseProxy}
use vermouth.Proxy.Restore
use vermouth.Proxy.Restore.{add_entries}
use vermouth.Proxy.Snapshot.{HttpProxySnap, saved, loaded}
use vermouth.State.Context.{StateContext}

-- What becomes of the sink of raft.
pub data Sink : Type 0 where
  cancelled : Sink
  kept : Str → Sink

module _ (lib : RateLib) where
  abbrev pub Table : Type 0
  Table = Map ℤ (HttpReverseProxy lib)

  abbrev pub saved_all : Table → Map ℤ HttpProxySnap
  saved_all [] = []
  saved_all ((port, p) ∷ m) = (port, saved lib p) ∷ saved_all m

  -- Decode(&ctx): a proxy of the text takes the place of the one at its port, and the others stay.
  unfoldable pub decoded_into : Map ℤ HttpProxySnap → Table → Table
  decoded_into [] m = m
  decoded_into ((port, s) ∷ snap) m = Map.put (decoded_into snap m) port (loaded lib s)

  -- The loop of restoreFromSnap: an error of Restore is logged.
  unfoldable pub restore_each : Table → Go Table
  restore_each [] = ret []
  restore_each ((port, hp) ∷ m) = do
    (done, restored) ← Restore.restore lib hp
    rest ← restore_each m
    ret ((port, restored) ∷ rest)

  -- The loop of Restore, which first adds the networks of the black list again, and starts what is
  -- restored.
  unfoldable pub restore_and_start : Table → Go Table
  restore_and_start [] = ret []
  restore_and_start ((port, hp) ∷ m) = do
    t ← add_entries hp.acl.entries hp.acl
    (done, restored) ← Restore.restore lib (record hp { acl = t })
    started ← if done then Proxy.start lib restored else ret restored
    rest ← restore_and_start m
    ret ((port, started) ∷ rest)

  module _ (encode : Map ℤ HttpProxySnap → Option Str)
      (decode : Str → Option (Map ℤ HttpProxySnap)) where
    -- Marshal
    unfoldable pub marshal : StateContext lib → Option Str
    marshal ctx = encode (saved_all ctx.proxies)

    -- Persist, where the sink can be written and closed or not: whether there is an error.
    unfoldable pub persist : Bool → Bool → StateContext lib → Bool × Sink
    unfolding marshal
    persist writes closes ctx = elim (marshal ctx) [
      | none ↦ (true, cancelled)
      | some text ↦ if writes && closes then (false, kept text) else (true, cancelled)
    ]

    -- UnMarshal
    unfoldable pub un_marshal : Str → StateContext lib → Option (StateContext lib)
    unfolding decoded_into
    un_marshal serialized ctx = elim (decode serialized) [
      | none ↦ none
      | some snap ↦ some (record { proxies = decoded_into snap ctx.proxies })
    ]

    -- Restore, for raft: `true` is an error.
    unfoldable pub restore : Str → StateContext lib → Go (Bool × StateContext lib)
    unfolding un_marshal restore_and_start
    restore serialized ctx = elim (un_marshal serialized ctx) [
      | none ↦ ret (true, ctx)
      | some read ↦ do
        started ← restore_and_start read.proxies
        ret (false, record { proxies = started })
    ]

    -- restoreFromSnap, in stand mode, for the text of the file, `none` where it cannot be read.
    unfoldable pub restore_from_snap : Option Str → StateContext lib → Go (StateContext lib)
    unfolding un_marshal restore_each
    restore_from_snap none ctx = ret ctx
    restore_from_snap (some text) ctx = elim (un_marshal text ctx) [
      | none ↦ ret ctx
      | some read ↦ do restored ← restore_each read.proxies; ret (record { proxies = restored })
    ]
