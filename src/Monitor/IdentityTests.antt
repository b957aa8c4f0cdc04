-- ===== src/Monitor/IdentityTests.antt =====
-- static/403/script.js: what sayswho says of some browsers.
use vermouth.Prelude.{refl, [], Str, codes, str_beq, ◌≡◌, ◌++◌, nat_eq, str_eq}
use vermouth.Monitor.Identity.{Navigator, says_who}
use vermouth.Monitor.Browsers.{
  webkit, windows, safari, edge_tail, new_edge_tail, opera_tail, says_who-browsers,
}

abbrev agent : Str → Navigator
agent ua = record { user_agent = ua; app_name = codes "Netscape"; app_version = codes "5.0" }

chrome_test :
    says_who (
      agent (
        codes "Mozilla/5.0 (X11) AppleWebKit/537.36 (KHTML, like Gecko) Chrome/41.0 Safari/537.36"))
    ≡ codes "Chrome 41"
unfolding says_who vermouth.Prelude.str_beq
chrome_test = refl

opera_test :
    says_who (
      agent (
        codes
          "Mozilla/5.0 (X11) AppleWebKit/537.36 (KHTML, like Gecko) Chrome/41.0 Safari/537.36 OPR/28.0"))
    ≡ codes "Opera 28"
unfolding says_who vermouth.Prelude.str_beq
opera_test = refl

safari_test :
    says_who (
      agent
        (codes "Mozilla/5.0 (Mac) AppleWebKit/600 (KHTML, like Gecko) Version/8.0.7 Safari/600.7"))
    ≡ codes "Safari 8"
unfolding says_who vermouth.Prelude.str_beq
safari_test = refl

explorer_test :
    says_who (agent (codes "Mozilla/5.0 (Windows NT 6.1; Trident/7.0; rv:11.0) like Gecko"))
    ≡ codes "IE 11"
unfolding says_who
explorer_test = refl

nobody_test : says_who (agent (codes "curl 7.1")) ≡ codes "Netscape 5.0 -?"
unfolding says_who
nobody_test = refl

says_who-browsers_example :
    (says_who (agent (webkit ++ codes "Chrome/" ++ codes "42" ++ safari))
      ≡ codes "Chrome " ++ codes "42")
    × (says_who (agent (webkit ++ codes "Chrome/" ++ codes "42" ++ edge_tail (codes "12")))
        ≡ codes "Edge " ++ codes "12")
    × (says_who (agent (webkit ++ codes "Chrome/" ++ codes "42" ++ opera_tail (codes "12")))
        ≡ codes "Opera " ++ codes "12")
    × (says_who
          (agent (windows ++ codes "rv:109.0) Gecko/20100101 Firefox/" ++ codes "42" ++ codes ".0"))
        ≡ codes "Firefox " ++ codes "42")
    × (says_who
          (agent (windows ++ codes "Trident/7.0; rv:" ++ codes "42" ++ codes ".0) like Gecko"))
        ≡ codes "IE " ++ codes "42")
    × (says_who (agent (webkit ++ codes "Chrome/" ++ codes "42" ++ new_edge_tail (codes "12")))
        ≡ codes "Chrome " ++ codes "42")
says_who-browsers_example =
    says_who-browsers (agent []) (codes "42") (codes "12") (refl, (refl, tt)) (refl, (refl, tt))
