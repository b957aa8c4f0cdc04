-- ===== src/Net.antt =====
-- utils/net.go and utils/tag.go: addresses of clients and of hosts, and the lists in struct tags.
-- Calls that open connections or listeners are not modelled.
pub mod Laws
mod Tests
use vermouth.Prelude.{
  ℕ, bit_or, Bool, true, false, not, Option, none, some, List, [], ltb, leb, nat_beq, Str, codes,
  all, length, Go, ret, panic, ℤ, pos, negsuc, ◌&&◌, ◌||◌, ◌∷◌, ◌==◌, if◌then◌else◌, nat_eq, str_eq,
}
use mathlib.Core.List.{map, reverse}
use vermouth.Golib.Strings.{split, first_is}
use vermouth.Golib.Strconv.{atoi}
use vermouth.Prelude.Int.{◌-ℤ◌, shl_u32, ltb_ℤ}

-- What the program reads of an http.Request. `header` is what Header.Get answers for a name, and
-- the empty string for a header that is not there.
pub record Request : Type 0 where
  pub method : Str
  pub path : Str
  pub remote_addr : Str
  pub header : Str → Str

-- RemoteIp
unfoldable pub remote_ip : Request → Str
remote_ip req =
    if not (req.remote_addr == [])
    then req.remote_addr
    else if not (req.header (codes "ipv4") == [])
    then req.header (codes "ipv4")
    else if not (req.header (codes "XForwardedFor") == [])
    then req.header (codes "XForwardedFor")
    else if not (req.header (codes "X-Forwarded-For") == [])
    then req.header (codes "X-Forwarded-For")
    else if not (req.header (codes "X-Real-Ip") == [])
    then req.header (codes "X-Real-Ip")
    else codes "127.0.0.1"

-- The loop of InetToi. The shift by a negative count, at a fifth part, panics.
unfoldable pub inet_from : ℕ → ℤ → List Str → Go (Option ℕ)
inet_from acc at [] = ret (some acc)
inet_from acc at (seg ∷ segs) = elim (atoi seg) [
  | none ↦ ret none
  | some n ↦ elim at [
    | pos k ↦ inet_from (bit_or acc (shl_u32 n k)) (pos k -ℤ pos 8) segs
    | negsuc k ↦ panic
  ]
]

-- InetToi: `none` is the error of strconv.Atoi, beside which the program returns 0.
unfoldable pub inet_toi : Str → Go (Option ℕ)
unfolding inet_from shl_u32 ◌-ℤ◌
inet_toi ip = inet_from 0 (pos 24) (split b'.' ip)

-- ValidIPAddress
pub data Family : Type 0 where
  ipv4 ipv6 neither : Family

-- A part of an IPv4 address: no leading zero, and a number not above 255.
v4_part : Str → Bool
v4_part s =
    not (ltb 1 (length s) && first_is b'0' s)
    && elim (atoi s) [ none ↦ false | some v ↦ not (ltb_ℤ (pos 255) v) ]

-- strconv.ParseUint(s, 16, 64) of at most four bytes succeeds.
is_hex : Str → Bool
is_hex [] = true
is_hex (c ∷ s) =
    (leb b'0' c && leb c b'9' || leb b'a' c && leb c b'f' || leb b'A' c && leb c b'F') && is_hex s

v6_part : Str → Bool
unfolding is_hex
v6_part s = not (ltb 4 (length s)) && not (s == []) && is_hex s

-- ValidIPAddress
unfoldable pub valid_ip_address : Str → Family
unfolding v4_part v6_part
valid_ip_address query_ip =
    if nat_beq (length (split b'.' query_ip)) 4
    then (if all v4_part (split b'.' query_ip) then ipv4 else neither)
    else if nat_beq (length (split b':' query_ip)) 8
    then (if all v6_part (split b':' query_ip) then ipv6 else neither)
    else neither

-- strings.Trim(s, " ") takes the spaces off both ends.
trim_left : Str → Str
trim_left [] = []
trim_left (c ∷ s) = if nat_beq c b' ' then trim_left s else c ∷ s

-- utils/tag.go: ParseTag
unfoldable pub parse_tag : Str → List Str
unfolding trim_left
parse_tag tag = map (λ s. reverse (trim_left (reverse (trim_left s)))) (split b',' tag)
