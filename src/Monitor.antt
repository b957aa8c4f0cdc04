-- ===== src/Monitor.antt =====
-- static/403/script.js: the monitor and the conveyor belt of the page that a forbidden client sees.
-- The page is the text of the monitor, whether its class "text" is on, and the classes of the box;
-- jQuery and the timers are not code of the repository, and a run is a sequence of timer ticks.
pub mod Laws
pub mod Identity
pub mod Versions
pub mod Browsers
mod Tests
mod IdentityTests
use vermouth.Monitor.Identity.{Navigator, says_who}
use vermouth.Prelude.{
  ℕ, zero, suc, Bool, true, false, not, Option, none, some, List, [], leb, Str, codes, length,
  get_elem?, ◌+◌, ◌∷◌, if◌then◌else◌, nat_eq, str_eq,
}

-- The globals of the script and what it writes on the page.
pub record Page : Type 0 where
  pub counter : ℕ
  pub shown : Option Str
  pub text_class : Bool
  pub scanned : Bool
  pub scan_window : Bool
  pub interval : Option ℕ
  pub version : Str

abbrev pub text : List Str
text = codes "403" ∷ codes "Forbidden" ∷ []

-- The page after the script has run, before any timer: the box shows the version of the browser.
unfoldable pub loaded : Navigator → Page
unfolding says_who
loaded n = record {
  counter = 0;
  shown = none;
  text_class = false;
  scanned = false;
  scan_window = false;
  interval = none;
  version = says_who n;
}

-- scanning: an interval of a second calls change.
unfoldable pub scanning : Page → Page
scanning p = record p { shown = some (codes "Forbidden"); interval = some 1000 }

-- change. html(undefined), for an index out of range, leaves the text as it is.
unfoldable pub change : Page → Page
change p =
    let next = p.counter + 1 in
    record p {
      shown = elim (get_elem? text p.counter) [ none ↦ p.shown | some t ↦ some t ];
      text_class = not p.text_class;
      counter = if leb (length text) next then 0 else next;
    }

-- The callback that the time line makes 2.5 seconds after its start.
unfoldable pub conveyor : Page → Page
unfolding scanning
conveyor p = scanning (record p { scanned = true; scan_window = true })

-- n ticks of the interval
unfoldable pub ticks : ℕ → Page → Page
unfolding change
ticks zero p = p
ticks (suc n) p = ticks n (change p)
