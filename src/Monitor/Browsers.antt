-- ===== src/Monitor/Browsers.antt =====
-- static/403/script.js: the user agents of the browsers that sayswho knows, for any version.
use vermouth.Prelude.{
  refl, true, false, none, some, Str, codes, str_beq, ◌≡◌, ◌∷◌, ◌++◌, nat_eq, str_eq,
}
use vermouth.Monitor.Versions.{
  IsVersion, IsTail, number-version, skip-version, search-digits, either_brand-digit,
  version_at-digit, rename_opr-digits, All-of, skip-rv,
}
use vermouth.Monitor.Identity.{
  Navigator, search_text, named, browser, rv_at, either_brand, version_at, rename_opr, titled,
  says_who,
}

-- The start of the user agents of Chrome and of what is built on it, and of the others.
abbrev pub webkit : Str
webkit = codes "Mozilla/5.0 (X11) AppleWebKit/537.36 (KHTML, like Gecko) "

abbrev pub windows : Str
windows = codes "Mozilla/5.0 (Windows NT 6.1; "

browser-chrome :
    (d r : Str)
    → IsVersion d
    → IsTail r
    → browser (webkit ++ codes "Chrome/" ++ d ++ r) ≡ some (codes "Chrome", d)
unfolding browser named
browser-chrome d r h t = rw (skip-version d r h, number-version d r h t) refl

browser-firefox :
    (d r : Str)
    → IsVersion d
    → IsTail r
    → browser (windows ++ codes "rv:109.0) Gecko/20100101 Firefox/" ++ d ++ r)
      ≡ some (codes "Firefox", d)
unfolding browser named
browser-firefox d r h t = rw (skip-version d r h, number-version d r h t) refl

unbranded :
    (d r : Str)
    → IsVersion d
    → search_text either_brand false (webkit ++ codes "Chrome/" ++ d ++ r)
      ≡ search_text either_brand true r
unfolding search_text either_brand
unbranded d r h = search-digits either_brand false d r either_brand-digit h

unversioned :
    (d r : Str)
    → IsVersion d
    → search_text version_at false (webkit ++ codes "Chrome/" ++ d ++ r)
      ≡ search_text version_at true r
unfolding search_text version_at
unversioned d r h = search-digits version_at false d r version_at-digit h

abbrev pub safari : Str
safari = codes ".0.0.0 Safari/537.36"

says_who-chrome :
    (n : Navigator) (d : Str)
    → IsVersion d
    → n.user_agent ≡ webkit ++ codes "Chrome/" ++ d ++ safari
    → says_who n ≡ codes "Chrome " ++ d
unfolding says_who titled vermouth.Prelude.str_beq
says_who-chrome n d h u =
    rw (u, browser-chrome d safari h refl, unbranded d safari h, unversioned d safari h) refl

rebranded :
    (brand name : Str) (d e r : Str)
    → IsVersion d
    → search_text either_brand true r ≡ some (brand, e)
    → rename_opr (brand ++ b' ' ∷ e) ≡ name ++ b' ' ∷ e
    → IsTail r
    → (n : Navigator) → n.user_agent ≡ webkit ++ codes "Chrome/" ++ d ++ r
    → says_who n ≡ name ++ b' ' ∷ e
unfolding says_who vermouth.Prelude.str_beq
rebranded brand name d e r h met renamed t n u =
    rw (u, browser-chrome d r h t, unbranded d r h, met) renamed

says_who-firefox :
    (n : Navigator) (d : Str)
    → IsVersion d
    → n.user_agent ≡ windows ++ codes "rv:109.0) Gecko/20100101 Firefox/" ++ d ++ codes ".0"
    → says_who n ≡ codes "Firefox " ++ d
unfolding says_who titled vermouth.Prelude.str_beq
says_who-firefox n d h u =
    rw
      (
        u,
        browser-firefox d (codes ".0") h refl,
        search-digits version_at false d (codes ".0") version_at-digit h,
      )
      refl

says_who-explorer :
    (n : Navigator) (d : Str)
    → IsVersion d
    → n.user_agent ≡ windows ++ codes "Trident/7.0; rv:" ++ d ++ codes ".0) like Gecko"
    → says_who n ≡ codes "IE " ++ d
unfolding says_who rv_at
says_who-explorer n d h u =
    rw (u, skip-rv d (codes ".0) like Gecko") h, number-version d (codes ".0) like Gecko") h refl)
      refl

abbrev pub edge_tail : Str → Str
edge_tail e = safari ++ codes " Edge/" ++ e ++ codes ".10240"

abbrev pub opera_tail : Str → Str
opera_tail e = safari ++ codes " OPR/" ++ e ++ codes ".0"

edge_brand :
    (e : Str) → IsVersion e → search_text either_brand true (edge_tail e) ≡ some (codes "Edge", e)
unfolding search_text either_brand
edge_brand e h = rw (number-version e (codes ".10240") h refl) refl

opera_brand :
    (e : Str) → IsVersion e → search_text either_brand true (opera_tail e) ≡ some (codes "OPR", e)
unfolding search_text either_brand
opera_brand e h = rw (number-version e (codes ".0") h refl) refl

edge_kept : (e : Str) → IsVersion e → rename_opr (codes "Edge" ++ b' ' ∷ e) ≡ codes "Edge " ++ e
unfolding rename_opr
edge_kept e h = rw (rename_opr-digits e (All-of e h)) refl

opera_renamed : (e : Str) → rename_opr (codes "OPR" ++ b' ' ∷ e) ≡ codes "Opera " ++ e
unfolding rename_opr
opera_renamed e = refl

-- The agent of Edge since its version 79.
abbrev pub new_edge_tail : Str → Str
new_edge_tail e = safari ++ codes " Edg/" ++ e ++ codes ".0.0.0"

new_edge_unbranded :
    (e : Str) → IsVersion e → search_text either_brand true (new_edge_tail e) ≡ none
unfolding search_text either_brand
new_edge_unbranded e h = search-digits either_brand false e (codes ".0.0.0") either_brand-digit h

new_edge_unversioned :
    (e : Str) → IsVersion e → search_text version_at true (new_edge_tail e) ≡ none
unfolding search_text version_at
new_edge_unversioned e h = search-digits version_at false e (codes ".0.0.0") version_at-digit h

says_who-new_edge :
    (n : Navigator) (d e : Str)
    → IsVersion d
    → IsVersion e
    → n.user_agent ≡ webkit ++ codes "Chrome/" ++ d ++ new_edge_tail e
    → says_who n ≡ codes "Chrome " ++ d
unfolding says_who titled vermouth.Prelude.str_beq
says_who-new_edge n d e h k u =
    rw
      (
        u,
        browser-chrome d (new_edge_tail e) h refl,
        unbranded d (new_edge_tail e) h,
        new_edge_unbranded e k,
        unversioned d (new_edge_tail e) h,
        new_edge_unversioned e k,
      )
      refl

-- For one agent text of each browser (that of one platform, with one text behind the versions), the
-- versions d and e any runs of digits, and whatever the application's own name and version: sayswho
-- names Chrome with the version d behind Chrome/, but the old Edge and Opera, whose agents name
-- Chrome too, with the version e behind Edge/ and OPR/, the second under the name Opera; it names
-- Firefox with the version behind Firefox/, and an agent with Trident as IE with the version behind
-- rv:, not the one behind Trident/. The Edge that writes Edg/ is named as Chrome.
pub says_who-browsers :
    (n : Navigator) (d e : Str)
    → IsVersion d
    → IsVersion e
    → (says_who (record n { user_agent = webkit ++ codes "Chrome/" ++ d ++ safari })
        ≡ codes "Chrome " ++ d)
      × (says_who (record n { user_agent = webkit ++ codes "Chrome/" ++ d ++ edge_tail e })
          ≡ codes "Edge " ++ e)
      × (says_who (record n { user_agent = webkit ++ codes "Chrome/" ++ d ++ opera_tail e })
          ≡ codes "Opera " ++ e)
      × (says_who (record n {
        user_agent = windows ++ codes "rv:109.0) Gecko/20100101 Firefox/" ++ d ++ codes ".0";
      })
          ≡ codes "Firefox " ++ d)
      × (says_who (record n {
        user_agent = windows ++ codes "Trident/7.0; rv:" ++ d ++ codes ".0) like Gecko";
      })
          ≡ codes "IE " ++ d)
      × (says_who (record n { user_agent = webkit ++ codes "Chrome/" ++ d ++ new_edge_tail e })
          ≡ codes "Chrome " ++ d)
says_who-browsers n d e h k = (
  says_who-chrome _ d h refl,
  rebranded (codes "Edge") (codes "Edge") d e (edge_tail e) h (edge_brand e k) (edge_kept e k) refl
      _ refl,
  rebranded (codes "OPR") (codes "Opera") d e (opera_tail e) h (opera_brand e k) (opera_renamed e)
      refl _ refl,
  says_who-firefox _ d h refl,
  says_who-explorer _ d h refl,
  says_who-new_edge _ d e h k refl,
)
