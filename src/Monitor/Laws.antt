-- ===== src/Monitor/Laws.antt =====
-- static/403/script.js: the page over the ticks of the interval.
use vermouth.Monitor.Identity.{Navigator, says_who}
use vermouth.Prelude.{
  ℕ, zero, suc, ap, inl, inr, true, some, arith, nat_beq, Bool-cases, Str, codes, ◌+◌, ◌%◌, ◌≡◌,
  ◌∙◌, if◌then◌else◌, nat_eq, str_eq,
}
use vermouth.Monitor.{Page, loaded, change, conveyor, ticks}

-- "Forbidden" until the first tick, then "403" after an odd number of ticks, and "Forbidden" after
-- an even one.
abbrev pub text_at : ℕ → Str
text_at n = if nat_beq (n % 2) 1 then codes "403" else codes "Forbidden"

-- The page after n ticks, described without the loop.
abbrev pub page_at : Str → ℕ → Page
page_at version n = record {
  counter = n % 2;
  shown = some (text_at n);
  text_class = nat_beq (n % 2) 1;
  scanned = true;
  scan_window = true;
  interval = some 1000;
  version = version;
}

change-even : (v : Str) (n : ℕ) → n % 2 ≡ 0 → change (page_at v n) ≡ page_at v (suc n)
unfolding change
change-even v n e = let o : suc n % 2 ≡ 1 = omega arith in rw (e, o)

change-odd : (v : Str) (n : ℕ) → n % 2 ≡ 1 → change (page_at v n) ≡ page_at v (suc n)
unfolding change
change-odd v n e = let o : suc n % 2 ≡ 0 = omega arith in rw (e, o)

change-page_at : (v : Str) (n : ℕ) → change (page_at v n) ≡ page_at v (suc n)
change-page_at v n = elim (Bool-cases (nat_beq (n % 2) 0)) [
  | inl even ↦ change-even v n (ground arith)
  | inr odd ↦ change-odd v n (ground arith)
]

ticks-page_at : (v : Str) (n k : ℕ) → ticks n (page_at v k) ≡ page_at v (n + k)
unfolding ticks
ticks-page_at v zero k = ap (page_at v) (omega arith)
ticks-page_at v (suc n) k =
    rw (change-page_at v k) (ticks-page_at v n (suc k) ∙ ap (page_at v) (omega arith))

-- After the conveyor belt and n ticks of the interval, the page is `page_at n`: the monitor shows
-- "403" after an odd number of ticks and "Forbidden" otherwise, with its class "text" on exactly
-- after an odd number, the counter stays an index of the texts, box and window keep their classes,
-- and the box goes on to show what sayswho says.
pub ticks-conveyor :
    (nav : Navigator) (n : ℕ) → ticks n (conveyor (loaded nav)) ≡ page_at (says_who nav) n
unfolding conveyor loaded
ticks-conveyor nav n = let v = says_who nav in ticks-page_at v n 0 ∙ ap (page_at v) (omega arith)
