-- ===== src/Logger/Format.antt =====
-- logger/logger.go: messageFormat, the text of a message. The name of the server is a setting of the
-- library viper, and is given here.
use vermouth.Logger.{default_format, Message}
use vermouth.Golib.Strings.{has_prefix, replace_first}
use vermouth.Golib.Strconv.{itoa}
use vermouth.Prelude.{
  refl, false, List, [], append-nil, arith, nat_beq, Str, codes, All, ℤ, pos, negsuc, ◌+◌, ◌≡◌, ◌∷◌,
  ◌++◌, ◌==◌, nat_eq, str_eq,
}

-- strconv.FormatInt in base ten
abbrev pub format_int : ℤ → Str
format_int (pos n) = itoa n
format_int (negsuc n) = b'-' ∷ itoa (n + 1)

-- The names in a format, each with its text.
abbrev pub fields : Str → Message → List (Str × Str)
fields server_name msg =
    (codes "%timestamp%", format_int msg.timestamp)
    ∷ (codes "%timestamp_format%", msg.timestamp_format)
    ∷ (codes "%millisecond%", format_int msg.millisecond)
    ∷ (codes "%millisecond_format%", msg.millisecond_format)
    ∷ (codes "%level%", itoa msg.level)
    ∷ (codes "%level_string%", msg.level_string)
    ∷ (codes "%file%", msg.file)
    ∷ (codes "%line%", format_int msg.line)
    ∷ (codes "%function%", msg.function)
    ∷ (codes "%body%", msg.body)
    ∷ (codes "%server_name%", server_name)
    ∷ []

unfoldable pub fill : List (Str × Str) → Str → Str
unfolding replace_first
fill [] message = message
fill ((name, value) ∷ rest) message = fill rest (replace_first name value message)

-- messageFormat
unfoldable pub message_format : Str → Str → Message → Str
unfolding fill
message_format server_name format msg = fill (fields server_name msg) format

-- No percent sign.
abbrev pub IsPlain : Str → Type 0
IsPlain s = All (λ c. (c == b'%') ≡ false) s

replace_first-plain :
    (p new s t : Str)
    → IsPlain s
    → replace_first (b'%' ∷ p) new (s ++ t) ≡ s ++ replace_first (b'%' ∷ p) new t
unfolding replace_first
replace_first-plain p new [] t h = refl
replace_first-plain p new (c ∷ s) t (h, hs) =
    let miss : nat_beq b'%' c ≡ false = ground arith in
    rw (miss, replace_first, has_prefix, replace_first-plain p new s t hs) refl

-- In the standard format, where the level and the time have no percent signs, a message reads: the
-- level in brackets, the time, and the body, in which the first %server_name% is replaced.
pub message_format-default :
    (server_name : Str) (msg : Message)
    → IsPlain msg.level_string
    → IsPlain msg.timestamp_format
    → message_format server_name default_format msg
      ≡ codes "["
        ++ (msg.level_string
            ++ (codes "] "
                ++ (msg.timestamp_format
                    ++ (codes " "
                        ++ (replace_first (codes "%server_name%") server_name msg.body)))))
unfolding message_format replace_first
message_format-default server_name msg level time =
    rw
      (
        replace_first-plain (codes "millisecond%") (format_int msg.millisecond) msg.timestamp_format
            _ time,
        replace_first-plain (codes "millisecond_format%") msg.millisecond_format
            msg.timestamp_format _ time,
        replace_first-plain (codes "level%") (itoa msg.level) msg.timestamp_format _ time,
        replace_first-plain (codes "file%") msg.file msg.level_string _ level,
        replace_first-plain (codes "file%") msg.file msg.timestamp_format _ time,
        replace_first-plain (codes "line%") (format_int msg.line) msg.level_string _ level,
        replace_first-plain (codes "line%") (format_int msg.line) msg.timestamp_format _ time,
        replace_first-plain (codes "function%") msg.function msg.level_string _ level,
        replace_first-plain (codes "function%") msg.function msg.timestamp_format _ time,
        replace_first-plain (codes "body%") msg.body msg.level_string _ level,
        replace_first-plain (codes "body%") msg.body msg.timestamp_format _ time,
        replace_first-plain (codes "server_name%") server_name msg.level_string _ level,
        replace_first-plain (codes "server_name%") server_name msg.timestamp_format _ time,
        append-nil msg.body,
      )
      refl
