-- ===== src/Server.antt =====
-- vermouth/http_server.go: the management server. Each handler that changes something refuses GET,
-- refuses to write on a node that is no leader, reads its body, gives the command to the Vermouth,
-- and says what came of it. Reading the body is a call of a JSON library, so a handler is given the
-- body, `none` where it cannot be read. The handlers that only print are not modelled, but for the
-- tests of getHttpProxyInfo.
pub mod Guards
mod Tests
use vermouth.Prelude.{
  ℕ, Bool, true, false, not, Option, none, some, Str, codes, Go, ret, ℤ, ◌==◌, if◌then◌else◌, ◌>>=◌,
  nat_eq, str_eq,
}
use vermouth.Golib.Strconv.{atoi}
use vermouth.Prelude.Int.{int_eq}
use vermouth.Prelude.Map
use vermouth.Rate.{RateLib}
use vermouth.State.Bodies.{
  Codecs, AddHttpProxyBody, ChangeHttpProxyStateBody, AddHttpProxyPrefixBody, HttpProxyHostBody,
  HttpBlackListBody, RemoveHttpProxyPrefixBody, HttpRateLimiterBody, HttpChangeStatic,
  HttpChangeLbBody,
}
use vermouth.State.Manager
use vermouth.State.Manager.{RaftAnswer, Vermouth, ManagerError}

pub data HttpReply : Type 0 where
  method_not_allowed : HttpReply
  not_leader : HttpReply
  bad_request : HttpReply
  internal_server_error : HttpReply
  success : HttpReply

-- The fields that the handlers read.
pub record HttpServer : Type 0 where
  pub port : ℤ
  pub enable_write : ℕ

-- NewHttpServer, without the table of its paths
abbrev pub new_http_server : ℤ → HttpServer
new_http_server port = record { port = port; enable_write = 0 }

-- SetWriteFlag and checkWritePermission
unfoldable pub set_write_flag : Bool → HttpServer → HttpServer
set_write_flag flag h = record h { enable_write = if flag then 1 else 0 }

unfoldable pub check_write_permission : HttpServer → Bool
check_write_permission h = h.enable_write == 1

-- Start, where the port can be listened at: in stand mode every node may write.
unfoldable pub start : Str → HttpServer → HttpServer
unfolding set_write_flag
start mode h = if mode == Manager.stand then set_write_flag true h else h

module _ (lib : RateLib) where
  abbrev pub failed : HttpReply → Option ManagerError → HttpReply
  failed on_error none = success
  failed on_error (some e) = on_error

  -- What the handlers share; `on_error` is the reply to a command that fails.
  unfoldable pub respond :
      {Body : Type 0}
      → HttpReply
      → (Body → Vermouth lib → Go (Option ManagerError × Vermouth lib))
      → HttpServer
      → Str
      → Option Body
      → Vermouth lib
      → Go (HttpReply × Vermouth lib)
  unfolding check_write_permission
  respond on_error command h method body v =
      if method == codes "GET"
      then ret (method_not_allowed, v)
      else if not (check_write_permission h)
      then ret (not_leader, v)
      else elim body [
        | none ↦ ret (bad_request, v)
        | some b ↦ (command b v >>= λ r. ret (failed on_error r.0, r.1))
      ]

  module _ (codecs : Codecs) (listens : ℤ → Bool) (raft : Str → RaftAnswer) where
    abbrev Handler : Type 0 → Type 0
    Handler Body = HttpServer → Str → Option Body → Vermouth lib → Go (HttpReply × Vermouth lib)

    unfoldable pub do_add_proxy : Handler AddHttpProxyBody
    unfolding respond
    do_add_proxy = respond internal_server_error (Manager.add_http_proxy lib codecs listens raft)

    unfoldable pub do_change_http_proxy_state : Handler ChangeHttpProxyStateBody
    unfolding respond
    do_change_http_proxy_state =
        respond internal_server_error (Manager.change_proxy_available lib codecs listens raft)

    unfoldable pub do_add_proxy_prefix : Handler AddHttpProxyPrefixBody
    unfolding respond
    do_add_proxy_prefix =
        respond internal_server_error (Manager.add_http_proxy_prefix lib codecs listens raft)

    unfoldable pub do_remove_proxy_prefix : Handler RemoveHttpProxyPrefixBody
    unfolding respond
    do_remove_proxy_prefix =
        respond internal_server_error (Manager.remove_http_proxy_prefix lib codecs listens raft)

    unfoldable pub do_add_host : Handler HttpProxyHostBody
    unfolding respond
    do_add_host =
        respond internal_server_error (Manager.add_http_proxy_host lib codecs listens raft)

    unfoldable pub do_remove_host : Handler HttpProxyHostBody
    unfolding respond
    do_remove_host =
        respond internal_server_error (Manager.remove_http_proxy_host lib codecs listens raft)

    unfoldable pub do_add_black_list : Handler HttpBlackListBody
    unfolding respond
    do_add_black_list =
        respond internal_server_error (Manager.add_black_list lib codecs listens raft)

    unfoldable pub do_remove_black_list : Handler HttpBlackListBody
    unfolding respond
    do_remove_black_list =
        respond internal_server_error (Manager.remove_black_list lib codecs listens raft)

    unfoldable pub do_change_static : Handler HttpChangeStatic
    unfolding respond
    do_change_static = respond bad_request (Manager.change_static lib codecs listens raft)

    unfoldable pub do_set_rate_limiter : Handler HttpRateLimiterBody
    unfolding respond
    do_set_rate_limiter =
        respond internal_server_error (Manager.set_rate_limiter lib codecs listens raft)

    unfoldable pub do_change_lb : Handler HttpChangeLbBody
    unfolding respond
    do_change_lb = respond internal_server_error (Manager.change_lb lib codecs listens raft)

  -- The tests of getHttpProxyInfo, on the text of the parameter "port": whether it prints a proxy.
  unfoldable pub http_proxy_info_found : Str → Vermouth lib → Bool
  http_proxy_info_found port v = elim (atoi port) [
    | none ↦ false
    | some p ↦ Map.has v.ctx.proxies p
  ]
