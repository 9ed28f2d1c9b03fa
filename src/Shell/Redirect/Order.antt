-- ===== src/Shell/Redirect/Order.antt =====
-- hw4/src/main.c: what a command with two redirections reads and writes, in either order.
use system_fundamentals_c_pr.Base.{
  ℕ, suc, ◌≡◌, ◌≢◌, ◌<◌, refl, ap, ◌∙◌, Bool, Option, true, false, none, some, List, [], ◌∷◌, ◌++◌,
  ltb, arith,
}
use system_fundamentals_c_pr.Shell.Trim.{trimwhitespace}
use system_fundamentals_c_pr.Shell.Redirect.{
  find_char, string_at, Redirections, split, split_redirections, Command, missing, builtin, program,
  prints_after, file_at, runs, inherited, file, print_file, open_output, execute_plan,
  redirect_command,
}
use system_fundamentals_c_pr.Shell.Redirect.Cutting.{
  Plain, from_to, to_from, redirected, find_behind, until_cut, until_end, Plain-nul, Plain-less,
  Plain-greater, shift, set_behind, drop_next, split_redirections-words,
}

-- The places of the two strings, when each file can be opened.
record Opens (readable writable : List ℕ → Bool) (r : Redirections) (i o : ℕ) (inf outf : List ℕ)
    : Type 0 where
  input : r.inpos ≡ some i
  output : r.outpos ≡ some o
  input_name : file_at r.buffer i ≡ some inf
  output_name : file_at r.buffer o ≡ some outf
  reads : readable inf ≡ true
  writes : writable outf ≡ true

input_first :
    (readable writable : List ℕ → Bool) (r : Redirections) (i o : ℕ) (inf outf : List ℕ)
    → Opens readable writable r i o inf outf
    → (goes : Bool) → i < o
    → execute_plan readable writable goes false false r ≡ runs (file inf) (file outf) none
unfolding execute_plan open_output print_file
input_first readable writable r i o inf outf h goes l =
    let less : ltb i o ≡ true = ground arith in
    rw
      (
        execute_plan, h.input, h.output, less, h.input_name, h.reads, open_output, h.output,
        h.output_name, h.writes, print_file, h.input,
      )
      refl

abbrev pub file_if : Bool → List ℕ → Option (List ℕ)
file_if false name = none
file_if true name = some name

-- The file that is printed behind a command.
abbrev pub file_behind : Command → List ℕ → Option (List ℕ)
file_behind missing name = none
file_behind builtin name = none
file_behind (program false) name = none
file_behind (program true) name = some name

file_if_prints :
    (command : Command) (name : List ℕ)
    → file_if (prints_after command) name ≡ file_behind command name
file_if_prints missing name = refl
file_if_prints builtin name = refl
file_if_prints (program false) name = refl
file_if_prints (program true) name = refl

output_first :
    (readable writable : List ℕ → Bool) (r : Redirections) (i o : ℕ) (inf outf : List ℕ)
    → Opens readable writable r i o inf outf
    → (goes : Bool) → o < i
    → execute_plan readable writable goes false false r
      ≡ runs inherited (file outf) (file_if goes inf)
unfolding execute_plan open_output print_file
output_first readable writable r i o inf outf h true l =
    let less : ltb o i ≡ true = ground arith in
    let not_less : ltb i o ≡ false = ground arith in
    rw
      (
        execute_plan, h.input, h.output, not_less, open_output, h.output, h.output_name, h.writes,
        print_file, h.input, h.output, less, h.input_name, h.reads,
      )
      refl
output_first readable writable r i o inf outf h false l =
    let not_less : ltb i o ≡ false = ground arith in
    rw
      (
        execute_plan, h.input, h.output, not_less, open_output, h.output, h.output_name, h.writes,
        print_file, h.input,
      )
      refl

-- A command that is found, with its words in front of a NUL.
command_runs :
    (readable writable : List ℕ → Bool) (lookup : List ℕ → Command) (words rest input : List ℕ)
    (r : Redirections) (command : Command)
    → Plain words
    → r.buffer ≡ words ++ 0 ∷ rest
    → split_redirections input ≡ split r
    → lookup words ≡ command
    → command ≢ missing
    → redirect_command readable writable lookup false false input
      ≡ some (execute_plan readable writable (prints_after command) false false r)
unfolding redirect_command
command_runs readable writable lookup words rest input r command hw b s e n =
    let front : string_at r.buffer 0 ≡ words =
      ap (λ x. string_at x 0) b ∙ until_cut words rest (Plain-nul words hw) in
    let looked : lookup (string_at r.buffer 0) ≡ command = ap lookup front ∙ e in
    runs_on command looked n
  where
    runs_on :
        (c : Command)
        → lookup (string_at r.buffer 0) ≡ c
        → c ≢ missing
        → redirect_command readable writable lookup false false input
          ≡ some (execute_plan readable writable (prints_after c) false false r)
    runs_on missing l m = absurd (m refl)
    runs_on builtin l m = rw (redirect_command, s, l) refl
    runs_on (program w) l m = rw (redirect_command, s, l) refl

shift_less : (a : List ℕ) (m n : ℕ) → m < n → shift a m < shift a n
shift_less [] m n l = l
shift_less (c ∷ a) m n l = let rest = shift_less a m n l in omega arith

-- The two strings in what is cut.
near_text :
    (words a b : List ℕ) → Plain a → string_at (words ++ 0 ∷ (a ++ 0 ∷ b)) (suc (shift words 0)) ≡ a
near_text words a b h = rw (drop_next words (0 ∷ (a ++ 0 ∷ b)) 0) (until_cut a b (Plain-nul a h))

far_text :
    (words a b : List ℕ)
    → Plain b
    → string_at (words ++ 0 ∷ (a ++ 0 ∷ b)) (suc (shift words (suc (shift a 0)))) ≡ b
far_text words a b h =
    rw (drop_next words (0 ∷ (a ++ 0 ∷ b)) (suc (shift a 0)), drop_next a (0 ∷ b) 0)
      (until_end b (Plain-nul b h))

-- A command whose input stands in front of its output takes the input from the file and writes to the
-- other file.
input_output-plan :
    (readable writable : List ℕ → Bool) (lookup : List ℕ → Command) (w : ℕ)
    (ws i o inf outf : List ℕ) (command : Command)
    → Plain (w ∷ ws)
    → Plain i
    → Plain o
    → lookup (w ∷ ws) ≡ command
    → command ≢ missing
    → trimwhitespace true i ≡ some inf
    → trimwhitespace true o ≡ some outf
    → readable inf ≡ true
    → writable outf ≡ true
    → redirect_command readable writable lookup false false ((w ∷ ws) ++ redirected (from_to i o))
      ≡ some (runs (file inf) (file outf) none)
unfolding find_char
input_output-plan readable writable lookup w ws i o inf outf command hw hi ho lc nc ti to' ri wo =
    let words = w ∷ ws in
    let r : Redirections = record {
      buffer = words ++ 0 ∷ (i ++ 0 ∷ o);
      outpos = some (suc (shift words (suc (shift i 0))));
      inpos = some (suc (shift words 0));
    } in
    let opens : Opens readable writable r (suc (shift words 0))
        (suc (shift words (suc (shift i 0)))) inf outf =
      record {
        input = refl;
        output = refl;
        input_name = rw (near_text words i o hi) ti;
        output_name = rw (far_text words i o ho) to';
        reads = ri;
        writes = wo;
      } in
    let less = shift_less words 0 (suc (shift i 0)) (omega arith) in
    let cut : split_redirections ((w ∷ ws) ++ redirected (from_to i o)) ≡ split r =
      rw
        (
          split_redirections-words w ws (redirected (from_to i o)) hw,
          find_behind b'>' i (b'>' ∷ o) (Plain-greater i hi),
          set_behind i (b'>' ∷ o) 0 0,
        )
        refl in
    command_runs readable writable lookup words (i ++ 0 ∷ o) _ r command hw refl cut lc nc
    ∙ ap some (
        input_first readable writable r (suc (shift words 0)) (suc (shift words (suc (shift i 0))))
          inf outf opens (prints_after command) (omega arith))

-- A command whose output stands in front of its input keeps the input that it has, and the file is
-- printed where `execute` goes on behind the command.
output_input-plan :
    (readable writable : List ℕ → Bool) (lookup : List ℕ → Command) (w : ℕ)
    (ws i o inf outf : List ℕ) (command : Command)
    → Plain (w ∷ ws)
    → Plain i
    → Plain o
    → lookup (w ∷ ws) ≡ command
    → command ≢ missing
    → trimwhitespace true i ≡ some inf
    → trimwhitespace true o ≡ some outf
    → readable inf ≡ true
    → writable outf ≡ true
    → redirect_command readable writable lookup false false ((w ∷ ws) ++ redirected (to_from o i))
      ≡ some (runs inherited (file outf) (file_behind command inf))
unfolding find_char
output_input-plan readable writable lookup w ws i o inf outf command hw hi ho lc nc ti to' ri wo =
    let words = w ∷ ws in
    let r : Redirections = record {
      buffer = words ++ 0 ∷ (o ++ 0 ∷ i);
      outpos = some (suc (shift words 0));
      inpos = some (suc (shift words (suc (shift o 0))));
    } in
    let opens : Opens readable writable r (suc (shift words (suc (shift o 0))))
        (suc (shift words 0)) inf outf =
      record {
        input = refl;
        output = refl;
        input_name = rw (far_text words o i hi) ti;
        output_name = rw (near_text words o i ho) to';
        reads = ri;
        writes = wo;
      } in
    let less = shift_less words 0 (suc (shift o 0)) (omega arith) in
    let cut : split_redirections ((w ∷ ws) ++ redirected (to_from o i)) ≡ split r =
      rw
        (
          split_redirections-words w ws (redirected (to_from o i)) hw,
          find_behind b'<' o (b'<' ∷ i) (Plain-less o ho),
          set_behind o (b'<' ∷ i) 0 0,
        )
        refl in
    command_runs readable writable lookup words (o ++ 0 ∷ i) _ r command hw refl cut lc nc
    ∙ ap some (
        output_first readable writable r (suc (shift words (suc (shift o 0)))) (suc (shift words 0))
          inf outf opens (prints_after command) (omega arith)
        ∙ ap (runs inherited (file outf)) (file_if_prints command inf))

-- `findexecutable` and `execute`, for a command that is not empty and is found, outside a pipeline, with
-- two redirections whose files, without the blanks around the names, can be opened, where the pieces have
-- no `<`, no `>` and no NUL: with `<` first, the command reads the one file, writes the other, and nothing
-- follows; with `>` first, the command writes the same file but reads what the shell reads, and the first
-- file is printed when a program has ended without EXIT_FAILURE, and not read at all behind `pwd`, `help`
-- or a program that ends with EXIT_FAILURE.
pub redirect_command-order :
    (readable writable : List ℕ → Bool) (lookup : List ℕ → Command) (w : ℕ)
    (ws i o inf outf : List ℕ) (command : Command)
    → Plain (w ∷ ws)
    → Plain i
    → Plain o
    → lookup (w ∷ ws) ≡ command
    → command ≢ missing
    → trimwhitespace true i ≡ some inf
    → trimwhitespace true o ≡ some outf
    → readable inf ≡ true
    → writable outf ≡ true
    → (redirect_command readable writable lookup false false ((w ∷ ws) ++ redirected (from_to i o))
        ≡ some (runs (file inf) (file outf) none))
      × (redirect_command readable writable lookup false false
            ((w ∷ ws) ++ redirected (to_from o i))
          ≡ some (runs inherited (file outf) (file_behind command inf)))
redirect_command-order readable writable lookup w ws i o inf outf command hw hi ho lc nc ti to' ri
      wo =
    (
      input_output-plan readable writable lookup w ws i o inf outf command hw hi ho lc nc ti to' ri
          wo,
      output_input-plan readable writable lookup w ws i o inf outf command hw hi ho lc nc ti to' ri
          wo,
    )
