-- ===== src/Logger/File.antt =====
-- logger/file_logger.go and utils/file.go: a log file that is put aside when it has too many lines.
-- A file is the list of the texts that were written to it. The name that a file which is put aside
-- gets is given with each call, `none` where it cannot be renamed. The limits by date and by size are
-- not modelled: the calls here are those of a configuration with MaxLine alone.
use vermouth.Prelude.Map
use vermouth.Prelude.Map.{Map}
use mathlib.Core.List.{map}
use mathlib.Core.Option
use vermouth.Prelude.{
  ℕ, suc, refl, sym, ap, inl, inr, true, false, Option, none, some, List, [], append-nil,
  append_assoc, arith, leb, nat_beq, Bool-cases, Str, length, length-append, All, ◌+◌, ◌≤◌, ◌≡◌,
  ◌∙◌, ◌⊎◌, ◌∷◌, ◌++◌, ◌==◌, if◌then◌else◌, nat_eq, str_eq,
}

pub record FileWriter : Type 0 where
  pub start_line : ℕ
  pub file : List Str
  pub old_files : Map Str (List Str)

-- strings.Count(message, "\n")
unfoldable pub count_newlines : Str → ℕ
count_newlines [] = 0
count_newlines (c ∷ s) = if c == 10 then suc (count_newlines s) else count_newlines s

-- GetFileLines: the count begins with one.
unfoldable pub get_file_lines : List Str → ℕ
unfolding count_newlines
get_file_lines [] = 1
get_file_lines (text ∷ texts) = count_newlines text + get_file_lines texts

-- initFile
unfoldable pub init_file : FileWriter → FileWriter
unfolding get_file_lines
init_file fw = record fw { start_line = get_file_lines fw.file }

-- sliceByLine, given the new name of the file, which is made of the time, or `none` where the rename
-- fails. A rename overwrites a file of the same name. A result of `none` is an error.
unfoldable pub slice_by_line : Option Str → ℕ → FileWriter → Option FileWriter
unfolding init_file
slice_by_line renamed max_line fw =
    if leb max_line fw.start_line
    then Option.map
        (λ name. init_file (record fw { file = []; old_files = Map.put fw.old_files name fw.file }))
        renamed
    else some fw

-- writeByConfig, behind the format of the message
abbrev pub ended : Str → Str
ended message = message ++ 13 ∷ 10 ∷ []

unfoldable pub append_text : ℕ → Str → FileWriter → FileWriter
append_text max_line message fw = record fw {
  file = fw.file ++ ended message ∷ [];
  start_line =
      if max_line == 0 then fw.start_line else fw.start_line + count_newlines (ended message);
}

unfoldable pub write_by_config : Option Str → ℕ → Str → FileWriter → Option FileWriter
unfolding slice_by_line append_text
write_by_config renamed max_line message fw =
    Option.map (append_text max_line message)
      (if max_line == 0 then some fw else slice_by_line renamed max_line fw)

-- A run of messages, each with the name that a file which is put aside then gets.
unfoldable pub write_all : ℕ → List (Str × Str) → FileWriter → Option FileWriter
unfolding write_by_config
write_all max_line [] fw = some fw
write_all max_line ((name, message) ∷ messages) fw =
    elim (write_by_config (some name) max_line message fw) [
      | none ↦ none
      | some fw' ↦ write_all max_line messages fw'
    ]

-- A text of one line.
abbrev pub IsLine : Str → Type 0
IsLine s = count_newlines s ≡ 0

count_newlines-ended : (s : Str) → count_newlines (ended s) ≡ count_newlines s + 1
unfolding count_newlines
count_newlines-ended [] = refl
count_newlines-ended (c ∷ s) = ground (arith, count_newlines-ended s)

-- All that was written, in order: the files that were put aside, the newest first in the list, and
-- then the file.
unfoldable pub joined : Map Str (List Str) → List Str → List Str
joined [] last = last
joined ((name, f) ∷ fs) last = joined fs (f ++ last)

abbrev pub written : FileWriter → List Str
written fw = joined fw.old_files fw.file

joined-append :
    (fs : Map Str (List Str)) (last more : List Str)
    → joined fs last ++ more ≡ joined fs (last ++ more)
unfolding joined
joined-append [] last more = refl
joined-append ((name, f) ∷ fs) last more =
    joined-append fs (f ++ last) more ∙ ap (joined fs) (append_assoc f last more)

-- The names are new: none is that of a file, and no two are the same.
unfoldable pub IsFresh : List (Str × Str) → Map Str (List Str) → Type 0
IsFresh [] fs = Unit
IsFresh ((name, message) ∷ messages) fs =
    (Map.has fs name ≡ false)
    × All (λ (x : Str × Str). name == x.0 ≡ false) messages
    × IsFresh messages fs

IsFresh-put :
    (messages : List (Str × Str)) (fs : Map Str (List Str)) (name : Str) (f : List Str)
    → All (λ (x : Str × Str). name == x.0 ≡ false) messages
    → IsFresh messages fs
    → IsFresh messages (Map.put fs name f)
unfolding IsFresh
IsFresh-put [] fs name f other new = tt
IsFresh-put ((n, m) ∷ ms) fs name f (ne, other) (absent, apart, new) =
    (rw (Map.has-put fs name n f, ne) absent, apart, IsFresh-put ms fs name f other new)

-- A file that is put aside has one line less than the limit, and the other is no longer.
pub record IsCut (max_line : ℕ) (fw : FileWriter) : Type 0 where
  pub counted : fw.start_line ≡ length fw.file + 1
  pub bounded : length fw.file + 1 ≤ max_line
  pub cut : All (λ (x : Str × List Str). length x.1 + 1 ≡ max_line) fw.old_files

-- The writer after a cut under a name.
abbrev cut_at : Str → FileWriter → FileWriter
cut_at name fw = init_file (record fw { file = []; old_files = Map.put fw.old_files name fw.file })

sliced :
    (name : Str) (max_line : ℕ) (message : Str) (fw fw' : FileWriter)
    → nat_beq max_line 0 ≡ false
    → slice_by_line (some name) max_line fw ≡ some fw'
    → write_by_config (some name) max_line message fw ≡ some (append_text max_line message fw')
unfolding write_by_config
sliced name max_line message fw fw' limited cut =
    ap
      (λ b.
        Option.map (append_text max_line message)
          (if b then some fw else slice_by_line (some name) max_line fw))
      limited
    ∙ ap (Option.map (append_text max_line message)) cut

-- What one message does: it is written, behind all that was, and only the name given is taken.
record IsWritten (name : Str) (max_line : ℕ) (message : Str) (fw fw' : FileWriter) : Type 0 where
  pub ran : write_by_config (some name) max_line message fw ≡ some fw'
  pub cut : IsCut max_line fw'
  pub all : written fw' ≡ written fw ++ ended message ∷ []
  pub names :
      (fw'.old_files ≡ fw.old_files)
      ⊎ ((f : List Str) × (fw'.old_files ≡ Map.put fw.old_files name f))

write-full :
    (name : Str) (max_line : ℕ) (message : Str) (fw : FileWriter)
    → 2 ≤ max_line
    → IsLine message
    → IsCut max_line fw
    → Map.has fw.old_files name ≡ false
    → leb max_line fw.start_line ≡ true
    → IsWritten name max_line message fw (append_text max_line message (cut_at name fw))
unfolding slice_by_line append_text init_file get_file_lines joined Map.put
write-full name max_line message fw two line inv new full =
    let limited : nat_beq max_line 0 ≡ false = ground arith in
    let all : length fw.file + 1 ≡ max_line =
      (let c = inv.counted in let b = inv.bounded in ground arith) in
    let same = Map.remove-absent fw.old_files name new in
    record {
      ran =
          sliced name max_line message fw (cut_at name fw) limited (rw (full, slice_by_line) refl);
      cut = record {
        counted = rw (limited, count_newlines-ended message, line) refl;
        bounded = two;
        cut = (all, rw same inv.cut);
      };
      all = rw same (sym (joined-append fw.old_files fw.file (ended message ∷ [])));
      names = inr (fw.file, refl);
    }

write-room :
    (name : Str) (max_line : ℕ) (message : Str) (fw : FileWriter)
    → 2 ≤ max_line
    → IsLine message
    → IsCut max_line fw
    → leb max_line fw.start_line ≡ false
    → IsWritten name max_line message fw (append_text max_line message fw)
unfolding slice_by_line append_text
write-room name max_line message fw two line inv room =
    let limited : nat_beq max_line 0 ≡ false = ground arith in
    let more = length-append fw.file (ended message ∷ []) in
    let short : length fw.file + 2 ≤ max_line = (let c = inv.counted in ground arith) in
    record {
      ran = sliced name max_line message fw fw limited (rw (room, slice_by_line) refl);
      cut = record {
        counted =
            rw (limited, count_newlines-ended message, line) (omega (arith, inv.counted, more));
        bounded = omega (arith, more, short);
        cut = inv.cut;
      };
      all = sym (joined-append fw.old_files fw.file (ended message ∷ []));
      names = inl refl;
    }

message-IsWritten :
    (name : Str) (max_line : ℕ) (message : Str) (fw : FileWriter)
    → 2 ≤ max_line
    → IsLine message
    → IsCut max_line fw
    → Map.has fw.old_files name ≡ false
    → (fw' : FileWriter) × IsWritten name max_line message fw fw'
message-IsWritten name max_line message fw two line inv new =
    elim (Bool-cases (leb max_line fw.start_line)) [
      | inl full ↦ (_, write-full name max_line message fw two line inv new full)
      | inr room ↦ (_, write-room name max_line message fw two line inv room)
    ]

IsFresh-written :
    (messages : List (Str × Str)) (fs gs : Map Str (List Str)) (name : Str)
    → (gs ≡ fs) ⊎ ((f : List Str) × (gs ≡ Map.put fs name f))
    → All (λ (x : Str × Str). name == x.0 ≡ false) messages
    → IsFresh messages fs
    → IsFresh messages gs
IsFresh-written messages fs gs name (inl same) other new = rw same new
IsFresh-written messages fs gs name (inr (f, is)) other new =
    rw is (IsFresh-put messages fs name f other new)

-- With a limit of two lines or more, and new names for the files that are put aside, any messages of
-- one line each are all written: the files put aside, in the order of their renaming, and the file
-- hold what they held, and then each message with its line end, in order. Every file that was put
-- aside has one line less than the limit: the count of an empty file begins with one.
pub write_all-IsCut :
    (max_line : ℕ) (messages : List (Str × Str)) (fw : FileWriter)
    → 2 ≤ max_line
    → All (λ (x : Str × Str). IsLine x.1) messages
    → IsFresh messages fw.old_files
    → IsCut max_line fw
    → (fw' : FileWriter) × (write_all max_line messages fw ≡ some fw')
      × IsCut max_line fw'
      × (written fw' ≡ written fw ++ map (λ (x : Str × Str). ended x.1) messages)
unfolding write_all IsFresh
write_all-IsCut max_line [] fw two lines new inv = (fw, refl, inv, sym (append-nil (written fw)))
write_all-IsCut max_line ((name, m) ∷ ms) fw two (line, lines) (absent, other, new) inv =
    let (fw1, one) = message-IsWritten name max_line m fw two line inv absent in
    let (fw2, rest, inv2, more) =
      write_all-IsCut max_line ms fw1 two lines
        (IsFresh-written ms fw.old_files fw1.old_files name one.names other new) one.cut in
    (
      fw2,
      rw (one.ran, write_all) rest,
      inv2,
      more
          ∙ ap (λ w. w ++ map (λ (x : Str × Str). ended x.1) ms) one.all
          ∙ append_assoc (written fw) (ended m ∷ []) (map (λ (x : Str × Str). ended x.1) ms),
    )
