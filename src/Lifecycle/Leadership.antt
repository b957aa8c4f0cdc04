-- ===== src/Lifecycle/Leadership.antt =====
-- vermouth/start.go: the permissions of a node over the notices of raft, which tells a node in turn that
-- it became the leader and that it is no longer.
use vermouth.Prelude.{
  ℕ, zero, suc, refl, sym, ap, inl, inr, Bool, true, false, not, some, List, [], arith, Bool-cases,
  Str, ret, ◌+◌, ◌-◌, ◌≡◌, ◌∙◌, ◌&&◌, ◌∷◌, if◌then◌else◌, ◌>>=◌, nat_eq, str_eq,
}
use vermouth.Lifecycle.{
  Node, ServerArgs, new_vermouth, notified, notified_all, permit, start_rpc, stop_rpc,
}
use vermouth.Server.{HttpServer, check_write_permission, set_write_flag, new_http_server}

-- The first n notices.
abbrev pub notices : Bool → ℕ → List Bool
notices leader zero = []
notices leader (suc n) = leader ∷ notices (not leader) n

abbrev pub after_turns : Bool → ℕ → Bool
after_turns b zero = b
after_turns b (suc n) = after_turns (not b) n

-- How many of them tell the node that it became the leader.
abbrev pub terms : Bool → ℕ → ℕ
terms leader zero = 0
terms leader (suc n) = (if leader then 1 else 0) + terms (not leader) n

-- The node that is the leader, and no other, may write and runs the rpc server, if there is one.
pub record IsInStep (node : Node) : Type 0 where
  pub server : HttpServer
  pub there : node.http_server ≡ some server
  pub writes : check_write_permission server ≡ node.leader
  pub rpc : node.rpc_waiting ≡ (if node.rpc_server && node.leader then 1 else 0)

idle :
    (wanted leader : Bool) (n : ℕ)
    → n ≡ (if wanted && leader then 1 else 0)
    → leader ≡ false
    → n ≡ 0
idle wanted leader n counts was = ground arith

notified-IsInStep :
    (b : Bool) (node : Node)
    → IsInStep node
    → node.leader ≡ not b
    → (next : Node) × (notified true b node ≡ ret next)
      × IsInStep next
      × (next.leader ≡ b)
      × (next.discovery_runs ≡ (if b then 1 else 0) + node.discovery_runs)
unfolding notified permit start_rpc stop_rpc set_write_flag check_write_permission
notified-IsInStep true node s was =
    let h : HttpServer = set_write_flag true s.server in
    let lead : Node = record node {
      leader = true;
      http_server = some h;
      discovery_runs = node.discovery_runs + 1;
    } in
    elim (Bool-cases node.rpc_server) [
      | inl rpc ↦ (
        record lead { rpc_waiting = node.rpc_waiting + 1 },
        rw (permit, s.there, start_rpc, rpc) refl,
        record {
          server = h;
          there = refl;
          writes = refl;
          rpc = rw (rpc, idle node.rpc_server node.leader node.rpc_waiting s.rpc was) refl;
        },
        refl,
        omega arith,
      )
      | inr none_there ↦ (
        lead,
        rw (permit, s.there, start_rpc, none_there) refl,
        record { server = h; there = refl; writes = refl; rpc = rw (s.rpc, none_there) refl },
        refl,
        omega arith,
      )
    ]
notified-IsInStep false node s was =
    let h : HttpServer = set_write_flag false s.server in
    let follow : Node = record node { leader = false; http_server = some h } in
    elim (Bool-cases node.rpc_server) [
      | inl rpc ↦
          (let waits : node.rpc_waiting ≡ 1 = s.rpc ∙ rw (rpc, was) refl in
            (
              record follow { rpc_waiting = node.rpc_waiting - 1 },
              rw (permit, s.there, stop_rpc, rpc, waits) refl,
              record { server = h; there = refl; writes = refl; rpc = rw (rpc, waits) refl },
              refl,
              omega arith,
            ))
      | inr none_there ↦ (
        follow,
        rw (permit, s.there, stop_rpc, none_there) refl,
        record { server = h; there = refl; writes = refl; rpc = rw (s.rpc, none_there) refl },
        refl,
        omega arith,
      )
    ]

-- A node with the http server, whose rpc server, if there is one, can listen at its port, gets any
-- number of notices.
notified_all-IsInStep :
    (n : ℕ) (b : Bool) (node : Node)
    → IsInStep node
    → node.leader ≡ not b
    → (last : Node) × (notified_all true (notices b n) node ≡ ret last)
      × IsInStep last
      × (last.leader ≡ after_turns (not b) n)
      × (last.discovery_runs ≡ terms b n + node.discovery_runs)
unfolding notified_all
notified_all-IsInStep zero b node s was = (node, refl, s, was, omega arith)
notified_all-IsInStep (suc n) b node s was =
    let (next, ran, in_step, led, runs) = notified-IsInStep b node s was in
    let (last, rest, end_step, end_led, all_runs) =
      notified_all-IsInStep n (not b) next in_step (led ∙ sym (twice b)) in
    (
      last,
      ap (λ m. m >>= notified_all true (notices (not b) n)) ran ∙ rest,
      end_step,
      end_led,
      all_runs ∙ ap (λ r. terms (not b) n + r) runs ∙ omega arith,
    )
  where
    twice : (b : Bool) → not (not b) ≡ b
    twice true = refl
    twice false = refl

new_vermouth-IsInStep :
    (known : Str → Bool) (conf : ServerArgs)
    → conf.http_server ≡ true
    → IsInStep (new_vermouth known conf)
unfolding new_vermouth check_write_permission
new_vermouth-IsInStep known conf asked = record {
  server = new_http_server conf.http_port;
  there = rw asked refl;
  writes = refl;
  rpc = elim (Bool-cases conf.rpc_server) [
    | inl wanted ↦ rw wanted refl
    | inr no_rpc ↦ rw no_rpc refl
  ];
}

-- A node of a cluster with an http server, whose rpc server, if there is one, can listen at its port,
-- goes through all notices of raft, which begin with its first term as the leader. After them the
-- node may write exactly while it is the leader, exactly then one goroutine of the rpc server
-- waits, and every discovery was started once for each term, and is not stopped.
pub notified_all-new_vermouth :
    (known : Str → Bool) (conf : ServerArgs) (n : ℕ)
    → conf.http_server ≡ true
    → (node : Node) × (notified_all true (notices true n) (new_vermouth known conf) ≡ ret node)
      × IsInStep node
      × (node.leader ≡ after_turns false n)
      × (node.discovery_runs ≡ terms true n)
unfolding new_vermouth
notified_all-new_vermouth known conf n asked =
    let (node, ran, in_step, led, runs) =
      notified_all-IsInStep n true (new_vermouth known conf)
        (new_vermouth-IsInStep known conf asked) refl in
    (node, ran, in_step, led, runs ∙ omega arith)
