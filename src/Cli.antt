-- ===== src/Cli.antt =====
-- CLI-driver/src/runcli.cpp: the loop that collects lines into statements. The input is the list of
-- the lines that are read, and its end is the end of the file; prompts and messages are not modelled.
pub mod Terminated
pub mod Commands
pub mod Buffer
mod Samples
use bsc_thesis.Base.{
  ℕ, ◌*◌, Bool, true, false, not, ◌&&◌, ◌||◌, List, [], ◌∷◌, ◌++◌, Option, none, some, Text, codes,
  text_eq, ◌==◌, ltb, leb, if◌then◌else◌, length,
}
use bsc_thesis.Status.{Outcome, done, ◌>>=◌}

-- std::isspace in the C locale
unfoldable pub is_space : ℕ → Bool
is_space c = c == 32 || (leb 9 c && leb c 13)

abbrev pub backslash : ℕ
backslash = 92

abbrev pub single_quote : ℕ
single_quote = 39

abbrev pub semicolon : ℕ
semicolon = 59

-- The first loop of endsWithSemicolonOutsideQuotes: inSingleQuote at the end.
unfoldable pub quote_scan : Text → Bool → Bool → Bool
quote_scan [] in_single_quote escaped = in_single_quote
quote_scan (c ∷ s) in_single_quote true = quote_scan s in_single_quote false
quote_scan (c ∷ s) in_single_quote false = elim (c == backslash) [
  | true ↦ quote_scan s in_single_quote true
  | false ↦ quote_scan s (if c == single_quote then not in_single_quote else in_single_quote) false
]

-- The second loop, from the end: the last character that is no space, if there is one.
unfoldable pub last_visible : Text → Option ℕ
last_visible [] = none
last_visible (c ∷ s) =
    let rest = last_visible s in
    elim rest as (λ _. Option ℕ) [ some d ↦ some d | none ↦ if is_space c then none else some c ]

-- endsWithSemicolonOutsideQuotes
unfoldable pub ends_with_semicolon : Text → Bool
ends_with_semicolon s =
    let last = elim (last_visible s) as (λ _. Bool) [ none ↦ false | some c ↦ c == semicolon ] in
    if quote_scan s false false then false else last

-- The two calls of line.erase.
unfoldable pub trim_start : Text → Text
trim_start [] = []
trim_start (c ∷ s) = let rest = trim_start s in if is_space c then rest else c ∷ s

unfoldable pub trim_end : Text → Text
trim_end [] = []
trim_end (c ∷ s) =
    let rest = trim_end s in
    elim rest as (λ _. Text) [ [] ↦ if is_space c then [] else c ∷ [] | _ ∷ _ ↦ c ∷ rest ]

-- MAX_SQL_BUFFER_SIZE
abbrev pub max_sql_buffer_size : ℕ
max_sql_buffer_size = 1024 * 1024

-- processArgs: whether "--silent" stands among the arguments behind the program's name.
unfoldable pub silent_in : List Text → Bool
silent_in [] = false
silent_in (arg ∷ args) = text_eq arg (codes "--silent") || silent_in args

unfoldable pub process_args : List Text → Bool
process_args [] = false
process_args (program ∷ args) = silent_in args

-- The variables of runCLI; `session` is none until INIT, when `initialized` becomes true.
pub record Shell {ℓ} (S : Type ℓ) : Type ℓ where
  pub sql_buffer : Text
  pub session : Option S

-- performTotalCleanup: the buffer is cleared and the instance destroyed.
abbrev pub perform_total_cleanup {ℓ} : {S : Type ℓ} → Shell S → Shell S
perform_total_cleanup shell = record { sql_buffer = []; session = none }

-- What a round of the loop comes to: another round, or a break.
pub data Round {ℓ} (S : Type ℓ) : Type ℓ where
  continues breaks : Shell S → Round S

-- The session is what ExecutionContext::getInstance makes and parseAndExecute works on.
module _ {ℓ} {S : Type ℓ} (get_instance : Outcome S)
    (parse_and_execute : Text → S → Outcome S) where
  -- A round from the check of the buffer's size on, with the trimmed line.
  unfoldable pub collect_line : Text → Shell S → Outcome (Round S)
  collect_line line shell =
      let buffer = shell.sql_buffer ++ (line ++ (codes "\n")) in
      let cleared : Shell S = record shell { sql_buffer = [] } in
      let executed : Outcome (Round S) = elim shell.session as (λ _. Outcome (Round S)) [
        | none ↦ done (continues cleared)
        | some session ↦ parse_and_execute buffer session >>= λ session'.
            done (continues (record cleared { session = some session' }))
      ] in
      if ltb max_sql_buffer_size (length shell.sql_buffer) || ltb max_sql_buffer_size (length line)
      then done (breaks shell)
      else (if ends_with_semicolon buffer
          then executed
          else done (continues (record shell { sql_buffer = buffer })))

  -- INIT makes the instance the first time.
  unfoldable pub initialize : Shell S → Outcome (Round S)
  initialize shell = elim shell.session as (λ _. Outcome (Round S)) [
    | some session ↦ done (continues shell)
    | none ↦ get_instance >>= λ session. done (continues (record shell { session = some session }))
  ]

  -- One round of the loop of runCLI on a line that was read.
  unfoldable pub read_line : Text → Shell S → Outcome (Round S)
  read_line line shell =
      let trimmed = trim_end (trim_start line) in
      if text_eq trimmed (codes "QUIT")
      then done (breaks shell)
      else (if text_eq trimmed (codes "INIT") then initialize shell else collect_line trimmed shell)

  -- The loop of runCLI, to the end of the input or a break.
  unfoldable pub run_loop : List Text → Shell S → Outcome (Shell S)
  run_loop [] shell = done shell
  run_loop (line ∷ lines) shell = read_line line shell >>= λ round. elim round [
    | continues shell' ↦ run_loop lines shell'
    | breaks shell' ↦ done shell'
  ]

  -- runCLI: the loop, and then performTotalCleanup.
  unfoldable pub run_cli : List Text → Outcome (Shell S)
  run_cli lines = run_loop lines (record { sql_buffer = []; session = none }) >>= λ shell.
      done (perform_total_cleanup shell)
