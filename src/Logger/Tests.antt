-- ===== src/Logger/Tests.antt =====
-- logger/logger.go: two messages through the channel of a logger with two outputs.
use mathlib.Core.List.{map}
use vermouth.Prelude.Map
use vermouth.Logger.File.{
  IsFresh, written, ended, write_all-IsCut, IsCut, write_all, count_newlines, FileWriter,
}
use vermouth.Golib.Strings.{replace_first}
use vermouth.Logger.Async.{take_flush-Run, async-Run}
use vermouth.Logger.Steps.{send, start, Run, InOrder, given_all}
use vermouth.Logger.{
  given, default_format, write_msg, level_string, take_flush, Logger, Message, async,
  build_from_config,
}
use vermouth.Config.{LogArgs}
use vermouth.Logger.Format.{message_format-default, message_format, IsPlain}
use vermouth.Prelude.Map
use vermouth.Prelude.{
  ℕ, refl, true, false, none, some, List, [], arith, Str, codes, str_beq, ret, pos, ◌≡◌, ◌∷◌, ◌++◌,
  nat_eq, str_eq,
}

abbrev arguments : LogArgs
arguments = record {
  name = codes "root";
  type = codes "console";
  level = codes "info";
  color = false;
  format = [];
  file_name = [];
  max_size = pos 0;
  max_line = pos 0;
  date_slice = [];
}

abbrev message : ℕ → Str → Message
message level body = record {
  timestamp = pos 1700000000;
  timestamp_format = codes "2023-11-14 22:13:20";
  millisecond = pos 1700000000000;
  millisecond_format = codes "2023-11-14 22:13:20";
  level = level;
  level_string = level_string level;
  body = body;
  file = codes "main.go";
  line = pos 7;
  function = codes "main.main";
}

abbrev info_only : Logger
info_only = record {
  name = codes "root";
  outputs = record { log_type = codes "console"; level = 2; args = arguments } ∷ [];
  synchronous = true;
  capacity = 10;
  msg_chan = [];
  wg = 0;
  writing = false;
  written = [];
}

built_test :
    build_from_config (arguments ∷ []) []
    ≡ ret (
        (
          codes "root",
          record info_only {
            outputs =
                record {
                  log_type = codes "console";
                  level = 2;
                  args = record arguments { format = default_format };
                }
                ∷ [];
          },
        )
        ∷ [])
unfolding build_from_config str_beq Map.get Map.put
built_test = refl

abbrev first_message : Message
first_message = message 1 (codes "hidden")

abbrev second_message : Message
second_message = message 3 (codes "low disk")

abbrev both : List Message
both = first_message ∷ second_message ∷ []

abbrev waiting : ℕ → List Message → Logger
waiting n msgs = record info_only {
  synchronous = false;
  capacity = 5;
  writing = true;
  msg_chan = msgs;
  wg = n;
}

two_sent : Run (async 5 info_only) both (waiting 2 both)
unfolding async write_msg
two_sent = send second_message (send first_message (start (async 5 info_only)) refl) refl

async-Run_example : InOrder info_only.outputs both (waiting 2 both)
async-Run_example = async-Run 5 info_only (waiting 2 both) both refl refl two_sent

abbrev flushed : Logger
flushed = record info_only {
  synchronous = false;
  capacity = 5;
  writing = false;
  msg_chan = [];
  wg = 0;
  written = given_all info_only.outputs both;
}

flush_taken : take_flush (waiting 2 both) ≡ some flushed
unfolding take_flush given
flush_taken = refl

take_flush-Run_example :
    (flushed.written ≡ given_all info_only.outputs both)
    × (flushed.wg ≡ 0)
    × (flushed.written ≡ flushed.written)
    × (take_flush flushed ≡ none)
take_flush-Run_example =
    take_flush-Run 5 info_only (waiting 2 both) flushed flushed both [] refl refl two_sent
      flush_taken (start flushed)

second-IsPlain : IsPlain second_message.level_string × IsPlain second_message.timestamp_format
second-IsPlain = (
  (refl, (refl, (refl, (refl, tt)))),
  (
    refl,
    (
      refl,
      (
        refl,
        (
          refl,
          (
            refl,
            (
              refl,
              (
                refl,
                (
                  refl,
                  (
                    refl,
                    (
                      refl,
                      (refl, (refl, (refl, (refl, (refl, (refl, (refl, (refl, (refl, tt))))))))),
                    ),
                  ),
                ),
              ),
            ),
          ),
        ),
      ),
    ),
  ),
)

message_format-default_example :
    message_format (codes "node") default_format second_message
    ≡ codes "["
      ++ (codes "Warn"
          ++ (codes "] "
              ++ (codes "2023-11-14 22:13:20"
                  ++ (codes " "
                      ++ (replace_first
                          (codes "%server_name%")
                          (codes "node")
                          (codes "low disk"))))))
message_format-default_example =
    message_format-default (codes "node") second_message (second-IsPlain.0) (second-IsPlain.1)

abbrev fresh : FileWriter
fresh = record { start_line = 1; file = []; old_files = [] }

abbrev lines : List (Str × Str)
lines = (codes "1", codes "a") ∷ (codes "2", codes "b") ∷ []

lines-IsFresh : IsFresh lines fresh.old_files
unfolding IsFresh Map.has vermouth.Prelude.str_beq
lines-IsFresh = (refl, (refl, tt), (refl, tt, tt))

write_all-IsCut_example :
    (fw : FileWriter) × (write_all 2 lines fresh ≡ some fw)
    × IsCut 2 fw
    × (written fw ≡ written fresh ++ map (λ (x : Str × Str). ended x.1) lines)
unfolding count_newlines
write_all-IsCut_example =
    write_all-IsCut 2 lines fresh (omega arith) (refl, (refl, tt)) lines-IsFresh
      (record { counted = refl; bounded = omega arith; cut = tt })
