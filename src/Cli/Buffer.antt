-- ===== src/Cli/Buffer.antt =====
-- The buffer of runCLI (CLI-driver/src/runcli.cpp): how large it grows, and that a statement which is
-- spread over lines is executed once it is complete.
use bsc_thesis.Base.{
  ℕ, ◌+◌, ◌*◌, ◌≤◌, ◌≡◌, true, false, ◌||◌, List, [], ◌∷◌, ◌++◌, some, Text, codes, text_eq, ltb,
  length, length-append, arith, Bool-cases, Option-cases, inl, inr,
}
use bsc_thesis.Status.{Outcome, done, ◌>>=◌, >>=-eq-done, >>=_assoc, done_inj}
use bsc_thesis.Cli.{
  Shell, Round, continues, breaks, ends_with_semicolon, trim_start, trim_end, max_sql_buffer_size,
  collect_line, initialize, read_line, run_loop,
}
use bsc_thesis.Cli.Commands.{shell_of}

abbrev pub buffer_limit : ℕ
buffer_limit = 2 * max_sql_buffer_size + 1

module _ {ℓ} {S : Type ℓ} (get_instance : Outcome S)
    (parse_and_execute : Text → S → Outcome S) where
  collect_line_bound :
      (line : Text) (shell : Shell S) (round : Round S)
      → length shell.sql_buffer ≤ buffer_limit
      → collect_line get_instance parse_and_execute line shell ≡ done round
      → length (shell_of round).sql_buffer ≤ buffer_limit
  unfolding collect_line
  collect_line_bound line shell round small h =
      let buffer = shell.sql_buffer ++ (line ++ codes "\n") in
      elim (Bool-cases (
        ltb max_sql_buffer_size (length shell.sql_buffer)
        || ltb max_sql_buffer_size (length line))) [
          | inl large ↦ rw (← done_inj (rw (large, collect_line) at h)) small
          | inr fits ↦ elim (Bool-cases (ends_with_semicolon buffer)) [
            | inl ends ↦ elim (Option-cases shell.session) [
              | inl waits ↦
                  rw (← done_inj (rw (fits, collect_line, ends, waits) at h)) (omega arith)
              | inr (session, held) ↦
                  let (session', ran, ended) =
                    >>=-eq-done (parse_and_execute buffer session) _
                      (rw (fits, collect_line, ends, held) at h) in
                  rw (← done_inj ended) (omega arith)
            ]
            | inr open' ↦
                let sizes = length-append {0} shell.sql_buffer (line ++ codes "\n") in
                let sizes' = length-append {0} line (codes "\n") in
                let both : (length shell.sql_buffer ≤ max_sql_buffer_size)
                    × (length line ≤ max_sql_buffer_size) =
                  ground arith in
                rw (← done_inj (rw (fits, collect_line, open') at h))
                  (omega (arith, sizes, sizes', both.0, both.1))
          ]
        ]

  -- No round leaves more than two megabytes and one byte in the buffer.
  pub read_line_bound :
      (line : Text) (shell : Shell S) (round : Round S)
      → length shell.sql_buffer ≤ buffer_limit
      → read_line get_instance parse_and_execute line shell ≡ done round
      → length (shell_of round).sql_buffer ≤ buffer_limit
  unfolding read_line initialize
  read_line_bound line shell round small h =
      let trimmed = trim_end (trim_start line) in
      elim (Bool-cases (text_eq trimmed (codes "QUIT"))) [
        | inl quit ↦ rw (← done_inj (rw (quit, read_line) at h)) small
        | inr other ↦ elim (Bool-cases (text_eq trimmed (codes "INIT"))) [
          | inl init ↦ elim (Option-cases shell.session) [
            | inl waits ↦
                let (first, made, ended) =
                  >>=-eq-done get_instance _ (rw (other, read_line, init, waits) at h) in
                rw (← done_inj ended) small
            | inr (session, held) ↦ rw (← done_inj (rw (other, read_line, init, held) at h)) small
          ]
          | inr plain ↦
              collect_line_bound trimmed shell round small (rw (other, read_line, plain) at h)
        ]
      ]

  -- However many lines the loop of runCLI takes, from a buffer of at most two megabytes and one byte on,
  -- it leaves no more than that in the buffer: a line is put behind it only when neither of the two has
  -- more than a megabyte.
  pub run_loop_bound :
      (lines : List Text) (shell shell' : Shell S)
      → length shell.sql_buffer ≤ buffer_limit
      → run_loop get_instance parse_and_execute lines shell ≡ done shell'
      → length shell'.sql_buffer ≤ buffer_limit
  unfolding run_loop
  run_loop_bound [] shell shell' small h = rw (← done_inj h) small
  run_loop_bound (line ∷ lines) shell shell' small h =
      let (round, read, ran) =
        >>=-eq-done (read_line get_instance parse_and_execute line shell) _ h in
      after (run_loop_bound lines) round (read_line_bound line shell round small read) ran
    where
      after :
          ((a b : Shell S)
            → length a.sql_buffer ≤ buffer_limit
            → run_loop get_instance parse_and_execute lines a ≡ done b
            → length b.sql_buffer ≤ buffer_limit)
          → (round : Round S) → length (shell_of round).sql_buffer ≤ buffer_limit
          → (elim round as (λ _. Outcome (Shell S)) [
            | continues a ↦ run_loop get_instance parse_and_execute lines a
            | breaks a ↦ done a
          ])
            ≡ done shell'
          → length shell'.sql_buffer ≤ buffer_limit
      after ih (breaks a) bound ran = rw (← done_inj ran) bound
      after ih (continues a) bound ran = ih a shell' bound ran

-- Lines that fill a buffer to a complete statement: each is neither QUIT nor INIT, buffer and line are
-- small enough, and only the last one completes the statement.
pub data Completes : Text → List Text → Text → Type 0 where
  last :
      {buffer line command : Text}
      → text_eq (trim_end (trim_start line)) (codes "QUIT") ≡ false
      → text_eq (trim_end (trim_start line)) (codes "INIT") ≡ false
      → ltb max_sql_buffer_size (length buffer)
          || ltb max_sql_buffer_size (length (trim_end (trim_start line)))
        ≡ false
      → command ≡ buffer ++ (trim_end (trim_start line) ++ codes "\n")
      → ends_with_semicolon command ≡ true
      → Completes buffer (line ∷ []) command
  more :
      {buffer line command : Text} {lines : List Text}
      → text_eq (trim_end (trim_start line)) (codes "QUIT") ≡ false
      → text_eq (trim_end (trim_start line)) (codes "INIT") ≡ false
      → ltb max_sql_buffer_size (length buffer)
          || ltb max_sql_buffer_size (length (trim_end (trim_start line)))
        ≡ false
      → ends_with_semicolon (buffer ++ (trim_end (trim_start line) ++ codes "\n")) ≡ false
      → Completes (buffer ++ (trim_end (trim_start line) ++ codes "\n")) lines command
      → Completes buffer (line ∷ lines) command

module _ {ℓ} {S : Type ℓ} (get_instance : Outcome S)
    (parse_and_execute : Text → S → Outcome S) where
  -- After INIT, lines that complete a statement have it executed once, and the loop goes on with an
  -- empty buffer and the session that this leaves.
  pub statement_runs :
      {buffer command : Text} {lines : List Text} (rest : List Text) (session : S)
      → Completes buffer lines command
      → run_loop get_instance parse_and_execute
          (lines ++ rest)
          (record { sql_buffer = buffer; session = some session })
        ≡ (parse_and_execute command session >>= λ session'.
            run_loop get_instance parse_and_execute rest
              (record { sql_buffer = []; session = some session' }))
  unfolding run_loop read_line collect_line
  statement_runs rest session
        (last {buffer = buffer} {line = line} {command = command} quit init fits is ends) =
      rw (quit, read_line, init, collect_line, fits, ← is, ends)
        (>>=_assoc (parse_and_execute command session) _ _)
  statement_runs rest session (more quit init fits open' later) =
      rw (quit, read_line, init, collect_line, fits, open') (statement_runs rest session later)
