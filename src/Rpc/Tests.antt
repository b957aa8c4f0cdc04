-- ===== src/Rpc/Tests.antt =====
-- client/client.go: a service registers at a proxy that has no prefixes, and cancels.
use vermouth.Rpc.Register.{client_register-cancel}
use vermouth.Rpc.{server_error}
use vermouth.Rpc.Client.{client_cancel, client_register, RpcClient}
use vermouth.Prelude.Map
use vermouth.Prelude.Int.{int_eq}
use vermouth.Fixtures.{test_lib, test_codecs, empty_proxy}
use vermouth.State.Manager
use vermouth.State.Manager.{Vermouth}
use vermouth.Proxy
use vermouth.Proxy.{HttpReverseProxy}
use vermouth.Prelude.{refl, true, false, none, some, [], codes, ret, pos, ◌≡◌, ◌∷◌, nat_eq, str_eq}

abbrev alone : Vermouth test_lib
alone = record {
  mode = Manager.stand;
  ctx = record { proxies = (pos 8080, empty_proxy) ∷ [] };
  log = [];
}

abbrev new_client : RpcClient
new_client = record { port = pos 0; prefix = []; local_addr = [] }

alone-listed : Map.get alone.ctx.proxies (pos 8080) ≡ some empty_proxy
unfolding Map.get
alone-listed = refl

nothing_known :
    (Proxy.prefix_exists test_lib empty_proxy (codes "/pay") ≡ false)
    × (Map.has empty_proxy.prefix_mapping.mapping (codes "/pay") ≡ false)
unfolding Proxy.prefix_exists Map.has
nothing_known = (refl, refl)

client_register-cancel_example :
    (c : RpcClient) × (w : Vermouth test_lib) × (p : HttpReverseProxy test_lib) × (client_register
        test_lib test_codecs
        (λ port. true)
        (λ entry. Manager.applied)
        (pos 8080)
        (codes "/pay")
        (codes "10.0.0.9:80")
        []
        new_client
        alone
      ≡ ret (none, c, w))
    × (Map.get w.ctx.proxies (pos 8080) ≡ some p)
    × (Proxy.host_exists test_lib p (codes "/pay") (codes "10.0.0.9:80") ≡ true)
    × (client_cancel test_lib test_codecs (λ port. true) (λ entry. Manager.applied) c w
        ≡ ret (some server_error, w))
client_register-cancel_example =
    client_register-cancel test_lib test_codecs (λ port. true) (λ entry. Manager.applied) (pos 8080)
      (codes "/pay") (codes "10.0.0.9:80") [] new_client alone empty_proxy refl refl alone-listed
      refl (nothing_known.0) (nothing_known.1)
