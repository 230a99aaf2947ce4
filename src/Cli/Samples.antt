-- ===== src/Cli/Samples.antt =====
-- Sessions at the command line, with a session that only remembers what was executed.
use bsc_thesis.Base.{
  ◌≡◌, ◌↔◌, refl, true, false, List, [], ◌∷◌, ◌++◌, none, some, Text, codes, text_eq, length, arith,
  ◌≤◌,
}
use bsc_thesis.Status.{Outcome, done, ◌>>=◌}
use bsc_thesis.Cli.{
  Shell, is_space, quote_scan, last_visible, ends_with_semicolon, trim_start, trim_end, silent_in,
  process_args, collect_line, initialize, read_line, run_loop, run_cli,
}
use bsc_thesis.Cli.Terminated.{IsTerminated, ends_with_semicolon_iff}
use bsc_thesis.Cli.Commands.{trimmed, after_all, statements, meaning, run_loop_executes}
use bsc_thesis.Cli.Buffer.{buffer_limit, run_loop_bound, Completes, last, more, statement_runs}

abbrev remember : Text → List Text → Outcome (List Text)
remember command log = done (log ++ (command ∷ []))

abbrev input : List Text
input = codes "INIT" ∷ codes "DROP " ∷ codes "  t;" ∷ codes "DROP u" ∷ codes "QUIT" ∷ []

abbrev fresh : Shell (List Text)
fresh = record { sql_buffer = []; session = none }

-- The shell in front of the cleanup.
abbrev left : Shell (List Text)
left = record { sql_buffer = codes "DROP u\n"; session = some (codes "DROP\nt;\n" ∷ []) }

run_input : run_loop (done []) remember input fresh ≡ done left
unfolding run_loop read_line initialize collect_line ends_with_semicolon last_visible quote_scan
    trim_end trim_start is_space text_eq
run_input = refl

cleaned_up : run_cli (done []) remember input ≡ done fresh
unfolding run_cli run_loop read_line initialize collect_line ends_with_semicolon last_visible
    quote_scan trim_end trim_start is_space text_eq
cleaned_up = refl

held :
    statements [] (codes "DROP " ∷ codes "  t;" ∷ codes "DROP u" ∷ codes "QUIT" ∷ [])
    ≡ (codes "DROP\nt;\n" ∷ [], codes "DROP u\n")
unfolding statements meaning ends_with_semicolon last_visible quote_scan trim_end trim_start
    is_space text_eq
held = refl

abbrev two_drops : List Text
two_drops = codes "DROP " ∷ codes "  t;" ∷ codes "DROP u" ∷ codes "QUIT" ∷ []

run_loop_executes_example :
    ((session : List Text)
      → run_loop (done []) remember two_drops (record { sql_buffer = []; session = some session })
        ≡ after_all (done []) remember (statements [] two_drops) session)
    × ((line : Text)
        → text_eq (trimmed line) (codes "INIT") ≡ true
        → run_loop (done []) remember (line ∷ two_drops) fresh
          ≡ (done [] >>= after_all (done []) remember (statements [] two_drops)))
run_loop_executes_example = run_loop_executes (done []) remember two_drops []

run_loop_bound_example : length left.sql_buffer ≤ buffer_limit
run_loop_bound_example = run_loop_bound (done []) remember input fresh left (omega arith) run_input

drop_t : Completes [] (codes "DROP " ∷ codes "  t;" ∷ []) (codes "DROP\nt;\n")
unfolding ends_with_semicolon last_visible quote_scan trim_end trim_start is_space text_eq
drop_t = more refl refl refl refl (last refl refl refl refl refl)

statement_runs_example :
    run_loop
      (done [])
      remember
      ((codes "DROP " ∷ codes "  t;" ∷ []) ++ (codes "QUIT" ∷ []))
      (record { sql_buffer = []; session = some [] })
    ≡ (remember (codes "DROP\nt;\n") [] >>= λ session'.
        run_loop
          (done [])
          remember
          (codes "QUIT" ∷ [])
          (record { sql_buffer = []; session = some session' }))
statement_runs_example = statement_runs (done []) remember (codes "QUIT" ∷ []) [] drop_t

ends_with_semicolon_iff_example :
    (ends_with_semicolon (codes "SELECT ';';\n") ≡ true) ↔ IsTerminated (codes "SELECT ';';\n")
ends_with_semicolon_iff_example = ends_with_semicolon_iff (codes "SELECT ';';\n")

quoted_semicolon : ends_with_semicolon (codes "INSERT 'a;") ≡ false
unfolding ends_with_semicolon last_visible quote_scan is_space
quoted_semicolon = refl

silent_flag : process_args (codes "MainApp" ∷ codes "--silent" ∷ []) ≡ true
unfolding process_args silent_in text_eq
silent_flag = refl
