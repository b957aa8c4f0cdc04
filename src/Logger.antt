-- ===== src/Logger.antt =====
-- logger/logger.go: a logger hands each message to its outputs, at once or through a channel that a
-- goroutine reads. The channel is a queue, and what each side does with it is a step, `none` where
-- it has to wait. `written` is what the outputs have been given; consoles and files are not
-- modelled, nor is the moment that a message is stamped with.
pub mod Format
pub mod Steps
pub mod Async
pub mod File
mod Tests
use vermouth.Prelude.{
  ℕ, Bool, true, false, not, Option, none, some, List, [], ltb, leb, Str, codes, length, contains,
  Go, ret, panic, ℤ, ◌+◌, ◌-◌, ◌&&◌, ◌||◌, ◌∷◌, ◌++◌, ◌==◌, if◌then◌else◌, ◌>>=◌, ◌>>◌, nat_eq,
  str_eq,
}
use vermouth.Prelude.Map
use vermouth.Prelude.Map.{Map}
use vermouth.Config.{LogArgs}

-- TRACE to FATAL
abbrev pub Level : Type 0
Level = ℕ

pub record Message : Type 0 where
  pub timestamp : ℤ
  pub timestamp_format : Str
  pub millisecond : ℤ
  pub millisecond_format : Str
  pub level : Level
  pub level_string : Str
  pub body : Str
  pub file : Str
  pub line : ℤ
  pub function : Str

-- outputLogger, with the arguments that its adapter keeps
pub record Output : Type 0 where
  pub log_type : Str
  pub level : Level
  pub args : LogArgs

pub record Logger : Type 0 where
  pub name : Str
  pub outputs : List Output
  pub synchronous : Bool
  pub capacity : ℕ
  pub msg_chan : List Message
  pub wg : ℕ
  pub writing : Bool
  pub written : List (Output × Message)

-- NewLogger
unfoldable pub new_logger : Str → Logger
new_logger name = record {
  name = name;
  outputs = [];
  synchronous = true;
  capacity = 10;
  msg_chan = [];
  wg = 0;
  writing = false;
  written = [];
}

-- levelStringMapping and levelIntMapping
abbrev pub level_string : Level → Str
level_string l =
    if l == 0
    then codes "Trace"
    else if l == 1
    then codes "Debug"
    else if l == 2
    then codes "Info"
    else if l == 3
    then codes "Warn"
    else if l == 4
    then codes "Error"
    else if l == 5
    then codes "Fatal"
    else []

-- A name that is not in the map gives the zero value.
abbrev pub level_of : Str → Level
level_of s =
    if s == codes "debug"
    then 1
    else if s == codes "info"
    then 2
    else if s == codes "warn"
    then 3
    else if s == codes "error"
    then 4
    else if s == codes "fatal"
    then 5
    else 0

abbrev pub default_format : Str
default_format = codes "[%level_string%] %timestamp_format% %body%"

abbrev with_format : LogArgs → LogArgs
with_format args = record args {
  format = if args.format == [] then default_format else args.format;
}

-- Init of the two adapters: `none` is an error. The file adapter does not look at what came of
-- opening the file.
unfoldable pub init_console : LogArgs → Option LogArgs
init_console args = if args.type == codes "console" then some (with_format args) else none

unfoldable pub init_file : LogArgs → Option LogArgs
init_file args =
    if not (args.type == codes "file") || args.file_name == []
    then none
    else if contains ([] ∷ codes "y" ∷ codes "m" ∷ codes "d" ∷ codes "h" ∷ []) args.date_slice
    then some (with_format args)
    else none

unfoldable pub init : Str → LogArgs → Option LogArgs
unfolding init_console init_file
init log_type args =
    if log_type == codes "console"
    then init_console args
    else if log_type == codes "file"
    then init_file args
    else none

-- Attach and attach: an adapter that is not known, or does not start, panics.
unfoldable pub attach : Str → Level → LogArgs → Logger → Go Logger
unfolding init
attach log_type level args l = elim (init log_type args) [
  | none ↦ panic
  | some kept ↦ ret (record l {
    outputs = l.outputs ++ record { log_type = log_type; level = level; args = kept } ∷ [];
  })
]

-- Logs[name], or a new logger
abbrev pub listed : Str → Option Logger → Logger
listed name (some l) = l
listed name none = new_logger name

-- BuildFromConfig, for the table Logs
unfoldable pub build_from_config : List LogArgs → Map Str Logger → Go (Map Str Logger)
unfolding attach new_logger
build_from_config [] logs = ret logs
build_from_config (args ∷ rest) logs = do
  attached ← attach args.type (level_of args.level) args (listed args.name (Map.get logs args.name))
  build_from_config rest (Map.put logs args.name attached)

-- writeToOutputs
unfoldable pub given : List Output → Message → List (Output × Message)
given [] msg = []
given (o ∷ os) msg = if leb o.level msg.level then (o, msg) ∷ given os msg else given os msg

unfoldable pub write_to_outputs : Message → Logger → Logger
unfolding given
write_to_outputs msg l = record l { written = l.written ++ given l.outputs msg }

-- async: a goroutine reads the channel.
unfoldable pub async : ℕ → Logger → Logger
async length l = record l { synchronous = false; capacity = length; msg_chan = []; writing = true }

-- Whether a send goes on: the buffer has room; or there is no buffer, and the goroutine receives. A
-- message that it has received and not yet written stays in `msg_chan`.
abbrev pub sends : Logger → Bool
sends l =
    if l.capacity == 0
    then l.writing && length l.msg_chan == 0
    else ltb (length l.msg_chan) l.capacity

-- writeMsg, with the message that it makes: `none` is a send that waits.
unfoldable pub write_msg : Message → Logger → Option Logger
unfolding write_to_outputs
write_msg msg l =
    if l.synchronous
    then some (write_to_outputs msg l)
    else if sends l
    then some (record l { msg_chan = l.msg_chan ++ msg ∷ []; wg = l.wg + 1 })
    else none

-- startAsyncwrite: the first case of its select
unfoldable pub take_message : Logger → Option Logger
unfolding write_to_outputs
take_message l =
    if l.writing
    then elim l.msg_chan [
      | [] ↦ none
      | msg ∷ msgs ↦ some (write_to_outputs msg (record l { msg_chan = msgs; wg = l.wg - 1 }))
    ]
    else none

-- The loop of flush.
unfoldable pub drain : List Message → Logger → Logger
unfolding write_to_outputs
drain [] l = record l { msg_chan = [] }
drain (msg ∷ msgs) l = drain msgs (write_to_outputs msg (record l { wg = l.wg - 1 }))

-- flush
unfoldable pub flush : Logger → Logger
unfolding drain
flush l = if l.synchronous then l else drain l.msg_chan l

-- startAsyncwrite: the second case, for the signal of Flush. The goroutine ends.
unfoldable pub take_flush : Logger → Option Logger
unfolding flush
take_flush l = if l.writing then some (flush (record l { writing = false })) else none
