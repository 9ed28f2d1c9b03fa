-- ===== src/Shell/Redirect.antt =====
-- hw4/src/main.c: the redirections at the start of `findexecutable`, and what `execute` makes of them.
pub mod Cutting
pub mod Printing
pub mod Order
use system_fundamentals_c_pr.Base.{
  ℕ, zero, suc, ◌+◌, Bool, true, false, not, ◌&&◌, ◌||◌, Option, none, some, List, [], ◌∷◌, ◌++◌,
  ◌==◌, length, set, drop, if◌then◌else◌, ltb,
}
use system_fundamentals_c_pr.Shell.Trim.{char_at, trimwhitespace}

-- One character further.
abbrev pub behind : Option ℕ → Option ℕ
behind none = none
behind (some i) = some (suc i)

-- `strstr` of one character.
unfoldable pub find_char : ℕ → List ℕ → Option ℕ
find_char c [] = none
find_char c (d ∷ cs) = if d == c then some 0 else behind (find_char c cs)

-- The string up to the first NUL.
unfoldable pub until_nul : List ℕ → List ℕ
until_nul [] = []
until_nul (c ∷ cs) = if c == 0 then [] else c ∷ until_nul cs

-- The string with its NULs, and `outpos` and `inpos`, behind `>` and `<`.
pub record Redirections : Type 0 where
  pub buffer : List ℕ
  pub outpos : Option ℕ
  pub inpos : Option ℕ

pub data Split : Type 0 where
  no_command : ℕ → Split
  split : Redirections → Split

abbrev pub string_at : List ℕ → ℕ → List ℕ
string_at buffer i = until_nul (drop i buffer)

-- `*outpos = 0`
abbrev pub cut_at : List ℕ → Option ℕ → List ℕ
cut_at buffer none = buffer
cut_at buffer (some i) = set buffer i 0

-- The start of `findexecutable`, up to the first `strtok_r`.
unfoldable pub split_redirections : List ℕ → Split
unfolding find_char
split_redirections input =
    let outpos = find_char b'>' input in
    let inpos = find_char b'<' input in
    let cut = cut_at input outpos in
    let buffer = cut_at cut inpos in
    if char_at 0 cut == 0
    then no_command b'>'
    else if char_at 0 buffer == 0
    then no_command b'<'
    else split (record { buffer = buffer; outpos = behind outpos; inpos = behind inpos })

-- Where a command reads and writes.
pub data Stream : Type 0 where
  inherited : Stream
  pipe : Stream
  file : List ℕ → Stream

pub data Plan : Type 0 where
  invalid_file : Plan
  after_pipeline : Plan
  before_pipeline : Plan
  reads_outside : Plan
  -- The input, the output, and the file that is printed when a program has ended without a failure.
  runs : Stream → Stream → Option (List ℕ) → Plan
  -- The same, with a file that is not there.
  runs_and_fails : Stream → Stream → Plan
  -- Nothing runs, and no file is opened: the command is not found.
  missing_command : Plan

-- What `findexecutable` finds for the words of a command: nothing, `pwd` or `help`, which `execute` ends
-- itself, or a program, and whether it ends without `exit(EXIT_FAILURE)`.
pub data Command : Type 0 where
  missing : Command
  builtin : Command
  program : Bool → Command

-- Whether `execute` goes on behind the command.
abbrev pub prints_after : Command → Bool
prints_after missing = false
prints_after builtin = false
prints_after (program ends_well) = ends_well

-- `inpos < outpos || !outpos`
abbrev pub before_output : ℕ → Option ℕ → Bool
before_output i none = true
before_output i (some o) = ltb i o

-- `inpos > outpos`
abbrev pub behind_output : ℕ → Option ℕ → Bool
behind_output i none = true
behind_output i (some o) = ltb o i

-- The file at a position, without the blanks around its name; a NUL stands in front of it.
abbrev pub file_at : List ℕ → ℕ → Option (List ℕ)
file_at buffer i = trimwhitespace true (string_at buffer i)

-- `inpos > outpos && inputfd < 0`, after the command, unless `execute` has ended with it.
unfoldable pub print_file : (List ℕ → Bool) → Bool → Redirections → Stream → Stream → Plan
print_file readable goes r input output = elim r.inpos [
  | none ↦ runs input output none
  | some i ↦ elim input [
    | pipe ↦ runs pipe output none
    | file name ↦ runs (file name) output none
    | inherited ↦ elim (goes && behind_output i r.outpos) [
      | false ↦ runs inherited output none
      | true ↦ elim (file_at r.buffer i) [
        | none ↦ reads_outside
        | some name ↦
            if readable name
            then runs inherited output (some name)
            else runs_and_fails inherited output
      ]
    ]
  ]
]

-- `outputfd`: `piped_out` says that a command follows in the pipeline.
unfoldable pub open_output :
    (List ℕ → Bool) → (List ℕ → Bool) → Bool → Bool → Redirections → Stream → Plan
unfolding print_file
open_output readable writable goes piped_out r input = elim r.outpos [
  | none ↦ print_file readable goes r input (if piped_out then pipe else inherited)
  | some o ↦ elim piped_out [
    | true ↦ before_pipeline
    | false ↦ elim (file_at r.buffer o) [
      | none ↦ reads_outside
      | some name ↦
          if writable name then print_file readable goes r input (file name) else invalid_file
    ]
  ]
]

-- The descriptors in `execute`; `readable` and `writable` say which files `open` opens.
unfoldable pub execute_plan :
    (List ℕ → Bool) → (List ℕ → Bool) → Bool → Bool → Bool → Redirections → Plan
unfolding open_output
execute_plan readable writable goes piped_in piped_out r = elim r.inpos [
  | none ↦ open_output readable writable goes piped_out r (if piped_in then pipe else inherited)
  | some i ↦ elim piped_in [
    | true ↦ after_pipeline
    | false ↦ elim (before_output i r.outpos) [
      | false ↦ open_output readable writable goes piped_out r inherited
      | true ↦ elim (file_at r.buffer i) [
        | none ↦ reads_outside
        | some name ↦
            if readable name
            then open_output readable writable goes piped_out r (file name)
            else invalid_file
      ]
    ]
  ]
]

-- `findexecutable` and `execute`; `lookup` says what the words of a command are.
unfoldable pub redirect_command :
    (List ℕ → Bool) → (List ℕ → Bool) → (List ℕ → Command) → Bool → Bool → List ℕ → Option Plan
unfolding split_redirections execute_plan
redirect_command readable writable lookup piped_in piped_out input =
    elim (split_redirections input) [
      | no_command c ↦ none
      | split r ↦ elim (lookup (string_at r.buffer 0)) [
        | missing ↦ some missing_command
        | builtin ↦
            some (execute_plan readable writable (prints_after builtin) piped_in piped_out r)
        | program ends_well ↦
            some (
              execute_plan readable writable (prints_after (program ends_well)) piped_in piped_out
                r)
      ]
    ]
