-- ===== src/Utf/Args.antt =====
-- hw2/src/args.c: `parse_args`, with the loop over `getopt(argc, argv, "+e:")`.
pub mod Places
use text.Mathlib.Text.{◌==◌ as str_eq}
use Prim.Native.String.{String}
use Prim.Native.Char.{code}
use system_fundamentals_c_pr.Base.{
  ℕ, suc, Bool, true, false, not, ◌&&◌, ◌||◌, Option, none, some, List, [], ◌∷◌, length, ltb, ◌==◌,
  if◌then◌else◌,
}
use system_fundamentals_c_pr.Utf.Convert.{Format}
use system_fundamentals_c_pr.Utf.Program.{determine_format}

-- `state_t`, as far as the arguments set it; none is 0 or NULL.
pub record State : Type 0 where
  pub encoding_to : Option Format
  pub in_file : Option String
  pub out_file : Option String

-- `USAGE` and `exit(0)`, `strcmp` of NULL, a file that `Open` does not open, or the state.
pub data Parsed : Type 0 where
  usage : Parsed
  compares_null : Parsed
  cannot_open : Parsed
  parsed : State → Parsed

-- What `getopt` makes of an argument: a file, where it returns -1; `--`; `-e` with the name of an encoding
-- behind it or in the next argument; or another option.
pub data Kind : Type 0 where
  plain : Kind
  end_mark : Kind
  attached : String → Kind
  detached : Kind
  unknown : Kind

abbrev pub option_kind : ℕ → String → Kind
option_kind c String.[] = if c == b'e' then detached else if c == b'-' then end_mark else unknown
option_kind c (String.◌∷◌ d s) = if c == b'e' then attached (String.◌∷◌ d s) else unknown

abbrev pub dash_kind : String → Kind
dash_kind String.[] = plain
dash_kind (String.◌∷◌ c s) = option_kind (code c) s

abbrev pub kind : String → Kind
kind String.[] = plain
kind (String.◌∷◌ c s) = if code c == b'-' then dash_kind s else plain

-- Whether the next argument is looked at by `getopt`, is the name of an encoding, or stands behind `--`.
pub data Mode : Type 0 where
  scanning : Mode
  naming : Mode
  behind_mark : Mode

-- `in_file == NULL`, then `out_file == NULL`.
abbrev pub take_file : String → State → State
take_file a s = elim s.in_file [
  | none ↦ record s { in_file = some a }
  | some i ↦ elim s.out_file [ none ↦ record s { out_file = some a } | some o ↦ s ]
]

abbrev pub is_complete : State → Bool
is_complete s = elim s.in_file [
  | none ↦ false
  | some i ↦ elim s.out_file [ none ↦ false | some o ↦ true ]
]

-- The loop; none is the error case. Behind a second `--`, for which `getopt` may exchange arguments, it is
-- not followed.
unfoldable pub parse_loop : List String → Mode → State → Option State
parse_loop [] scanning s = some s
parse_loop [] naming s = none
parse_loop [] behind_mark s = some s
parse_loop (a ∷ rest) naming s = elim (determine_format a) [
  | none ↦ none
  | some f ↦ parse_loop rest scanning (record s { encoding_to = some f })
]
parse_loop (a ∷ rest) behind_mark s = parse_loop rest scanning (take_file a s)
parse_loop (a ∷ rest) scanning s = elim (is_complete s) [
  | true ↦ some s
  | false ↦ elim (kind a) [
    | plain ↦ parse_loop rest scanning (take_file a s)
    | end_mark ↦ parse_loop rest behind_mark s
    | detached ↦ parse_loop rest naming s
    | unknown ↦ none
    | attached name ↦ elim (determine_format name) [
      | none ↦ none
      | some f ↦ parse_loop rest scanning (record s { encoding_to = some f })
    ]
  ]
]

-- `fstat` of both files, where `inode` is none when it fails.
abbrev pub same_inode : Option ℕ → Option ℕ → Bool
same_inode none o = true
same_inode (some i) none = true
same_inode (some i) (some o) = i == o

-- The tests behind the loop; `argc` counts the name of the program too.
unfoldable pub check_files :
    (String → Bool) → (String → Bool) → (String → Option ℕ) → ℕ → State → Parsed
check_files exists opens inode argc s = elim s.in_file [
  | none ↦ compares_null
  | some i ↦ elim s.out_file [
    | none ↦ compares_null
    | some o ↦
        if str_eq i o || ltb 5 argc
        then usage
        else if not (exists o)
        then parsed s
        else if not (opens i && opens o)
        then cannot_open
        else if same_inode (inode i) (inode o)
        then usage
        else parsed s
  ]
]

abbrev pub no_state : State
no_state = record { encoding_to = none; in_file = none; out_file = none }

-- The arguments behind the name of the program.
unfoldable pub parse_args :
    (String → Bool) → (String → Bool) → (String → Option ℕ) → List String → Parsed
unfolding parse_loop check_files
parse_args exists opens inode [] = usage
parse_args exists opens inode (a ∷ args) = elim (parse_loop (a ∷ args) scanning no_state) [
  | none ↦ usage
  | some s ↦ check_files exists opens inode (suc (suc (length args))) s
]
