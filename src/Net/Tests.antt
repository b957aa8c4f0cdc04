-- ===== src/Net/Tests.antt =====
-- utils/net.go: addresses of four parts and of five.
use vermouth.Prelude.{
  refl, some, arith, Str, codes, length, All, ret, panic, pos, ◌≤◌, ◌<◌, ◌≡◌, nat_eq, str_eq,
}
use vermouth.Golib.Strings.{split}
use vermouth.Net.{inet_toi}
use vermouth.Net.Laws.{IsNumeric, inet_toi-panic}

abbrev local : Str
local = codes "127.0.0.1"

abbrev five_parts : Str
five_parts = codes "1.2.3.4.5"

local_run : inet_toi local ≡ ret (some 2130706433)
unfolding inet_toi split vermouth.Golib.Strconv.atoi
local_run = refl

local-short : length (split b'.' local) ≤ 4
unfolding split
local-short = omega arith

five-IsNumeric : All IsNumeric (split b'.' five_parts)
unfolding split vermouth.Golib.Strconv.atoi
five-IsNumeric =
    ((pos 1, refl), ((pos 2, refl), ((pos 3, refl), ((pos 4, refl), ((pos 5, refl), tt)))))

five-long : 4 < length (split b'.' five_parts)
unfolding split
five-long = omega arith

inet_toi-panic_example : inet_toi five_parts ≡ panic
inet_toi-panic_example = inet_toi-panic five_parts five-IsNumeric five-long
