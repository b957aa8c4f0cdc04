-- ===== src/Monitor/Tests.antt =====
-- static/403/script.js: the page after five ticks.
use vermouth.Monitor.Identity.{Navigator, says_who}
use vermouth.Prelude.{[], codes, ◌≡◌, nat_eq, str_eq}
use vermouth.Monitor.{conveyor, loaded, ticks}
use vermouth.Monitor.Laws.{page_at, ticks-conveyor}

abbrev nobody : Navigator
nobody = record { user_agent = codes "curl 7.1"; app_name = []; app_version = [] }

ticks-conveyor_example : ticks 5 (conveyor (loaded nobody)) ≡ page_at (says_who nobody) 5
ticks-conveyor_example = ticks-conveyor nobody 5
