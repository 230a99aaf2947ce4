-- ===== src/Cli/Commands.antt =====
-- What runCLI (CLI-driver/src/runcli.cpp) executes: the statements of its input, each once and in order.
use bsc_thesis.Base.{
  true, ◌≡◌, refl, sym, ◌∙◌, ◌||◌, List, [], ◌∷◌, ◌++◌, none, some, Text, codes, text_eq,
  text_eq_iff, if◌then◌else◌, ltb, length, Bool-cases, inl, inr,
}
use bsc_thesis.Status.{Outcome, done, ◌>>=◌, >>=-ext, >>=_assoc}
use bsc_thesis.Cli.{
  Shell, Round, continues, breaks, ends_with_semicolon, trim_start, trim_end, max_sql_buffer_size,
  collect_line, initialize, read_line, run_loop,
}

abbrev pub shell_of {ℓ} : {S : Type ℓ} → Round S → Shell S
shell_of (continues shell) = shell
shell_of (breaks shell) = shell

abbrev pub trimmed : Text → Text
trimmed line = trim_end (trim_start line)

-- What a line is to a reader of the input, behind the text that was collected before it.
pub data Meaning : Type 0 where
  quits ignored too_large : Meaning
  completes extends : Text → Meaning

unfoldable pub meaning : Text → Text → Meaning
meaning collected line =
    let text = collected ++ (trimmed line ++ codes "\n") in
    if text_eq (trimmed line) (codes "QUIT")
    then quits
    else (if text_eq (trimmed line) (codes "INIT")
        then ignored
        else (if ltb max_sql_buffer_size (length collected)
              || ltb max_sql_buffer_size (length (trimmed line))
            then too_large
            else (if ends_with_semicolon text then completes text else extends text)))

-- The statements that lines hold behind a text that was collected before them, and the text that
-- is left unfinished.
unfoldable pub statements : Text → List Text → List Text × Text
statements collected [] = ([], collected)
statements collected (line ∷ lines) =
    let later = λ (text : Text). statements text lines in
    elim (meaning collected line) as (λ _. List Text × Text) [
      | quits ↦ ([], collected)
      | ignored ↦ later collected
      | too_large ↦ ([], collected)
      | completes text ↦ (text ∷ (later []).0, (later []).1)
      | extends text ↦ later text
    ]

-- Statements executed one after the other.
unfoldable pub execute_all {ℓ} : {S : Type ℓ} → (Text → S → Outcome S) → List Text → S → Outcome S
execute_all parse_and_execute [] session = done session
execute_all parse_and_execute (command ∷ commands) session =
    parse_and_execute command session >>= execute_all parse_and_execute commands

module _ {ℓ} {S : Type ℓ} (get_instance : Outcome S)
    (parse_and_execute : Text → S → Outcome S) where
  -- The shell that is left when the statements were executed from a session on.
  abbrev pub after_all : List Text × Text → S → Outcome (Shell S)
  after_all (commands, text) session = execute_all parse_and_execute commands session >>= λ last.
      done (record { sql_buffer = text; session = some last })

  abbrev pub ready : Text → S → Shell S
  ready collected session = record { sql_buffer = collected; session = some session }

  abbrev round_of : Text → S → Meaning → Outcome (Round S)
  round_of collected session quits = done (breaks (ready collected session))
  round_of collected session ignored = done (continues (ready collected session))
  round_of collected session too_large = done (breaks (ready collected session))
  round_of collected session (completes text) =
      parse_and_execute text session >>= λ session'. done (continues (ready [] session'))
  round_of collected session (extends text) = done (continues (ready text session))

  read_line-meaning :
      (collected line : Text) (session : S)
      → read_line get_instance parse_and_execute line (ready collected session)
        ≡ round_of collected session (meaning collected line)
  unfolding read_line initialize collect_line meaning
  read_line-meaning collected line session =
      let text = collected ++ (trimmed line ++ codes "\n") in
      elim (Bool-cases (text_eq (trimmed line) (codes "QUIT"))) [
        | inl quit ↦ rw (quit, read_line, meaning) refl
        | inr other ↦ elim (Bool-cases (text_eq (trimmed line) (codes "INIT"))) [
          | inl init ↦ rw (other, read_line, meaning, init) refl
          | inr word ↦
              elim (Bool-cases (
                ltb max_sql_buffer_size (length collected)
                || ltb max_sql_buffer_size (length (trimmed line)))) [
                  | inl large ↦ rw (other, read_line, meaning, word, collect_line, large) refl
                  | inr fits ↦ elim (Bool-cases (ends_with_semicolon text)) [
                    | inl ends ↦ rw (other, read_line, meaning, word, collect_line, fits, ends) refl
                    | inr open' ↦
                        rw (other, read_line, meaning, word, collect_line, fits, open') refl
                  ]
                ]
        ]
      ]

  after_round :
      (lines : List Text)
      → ((text : Text) (a : S)
          → run_loop get_instance parse_and_execute lines (ready text a)
            ≡ after_all (statements text lines) a)
      → (collected : Text) (session : S) (m : Meaning)
      → (round_of collected session m >>= λ round. elim round as (λ _. Outcome (Shell S)) [
        | continues shell' ↦ run_loop get_instance parse_and_execute lines shell'
        | breaks shell' ↦ done shell'
      ])
        ≡ after_all
            (elim m as (λ _. List Text × Text) [
              | quits ↦ ([], collected)
              | ignored ↦ statements collected lines
              | too_large ↦ ([], collected)
              | completes text ↦ (text ∷ (statements [] lines).0, (statements [] lines).1)
              | extends text ↦ statements text lines
            ])
            session
  unfolding execute_all
  after_round lines ih collected session quits = refl
  after_round lines ih collected session ignored = ih collected session
  after_round lines ih collected session too_large = refl
  after_round lines ih collected session (extends text) = ih text session
  after_round lines ih collected session (completes text) =
      >>=_assoc (parse_and_execute text session) _ _
      ∙ (>>=-ext (parse_and_execute text session) _ _ (ih [])
          ∙ sym (>>=_assoc (parse_and_execute text session) _ _))

  run_loop_runs :
      (lines : List Text) (collected : Text) (session : S)
      → run_loop get_instance parse_and_execute lines (ready collected session)
        ≡ after_all (statements collected lines) session
  unfolding run_loop statements execute_all
  run_loop_runs [] collected session = refl
  run_loop_runs (line ∷ lines) collected session =
      rw (read_line-meaning collected line session)
        (after_round lines (run_loop_runs lines) collected session (meaning collected line))

  -- INIT makes the session, whatever was collected before it.
  read_line-init :
      (collected line : Text)
      → text_eq (trimmed line) (codes "INIT") ≡ true
      → read_line get_instance parse_and_execute line
          (record { sql_buffer = collected; session = none })
        ≡ (get_instance >>= λ first. done (continues (ready collected first)))
  unfolding read_line initialize
  read_line-init collected line init =
      let word : trimmed line ≡ codes "INIT" = (text_eq_iff (trimmed line) (codes "INIT")).0 init in
      rw (word, read_line) (unfold text_eq in refl)

  -- With a session, the loop of runCLI executes exactly the statements that its lines hold up to QUIT, a line
  -- that is too large or the end of the input, each of them once, in order, and each on the session that the one
  -- before left; a further INIT changes nothing, and the unfinished text stays unexecuted in the buffer.
  -- Without a session, a line INIT makes it, and the lines behind are executed in the same way.
  pub run_loop_executes :
      (lines : List Text) (collected : Text)
      → ((session : S)
          → run_loop get_instance parse_and_execute lines
              (record { sql_buffer = collected; session = some session })
            ≡ after_all (statements collected lines) session)
        × ((line : Text)
            → text_eq (trimmed line) (codes "INIT") ≡ true
            → run_loop get_instance parse_and_execute
                (line ∷ lines)
                (record { sql_buffer = collected; session = none })
              ≡ (get_instance >>= after_all (statements collected lines)))
  unfolding run_loop
  run_loop_executes lines collected = (
    run_loop_runs lines collected,
    λ line init.
        rw (read_line-init collected line init)
          (>>=_assoc get_instance _ _ ∙ >>=-ext get_instance _ _ (run_loop_runs lines collected)),
  )
