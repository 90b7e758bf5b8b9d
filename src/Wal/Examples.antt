-- ===== src/Wal/Examples.antt =====
-- The theorems on wal/ at concrete logs.
use durarun_operator.Prelude.{ℕ, pos, ◌≡◌, ◌<◌, sym, refl, true, false, List, [], ◌∷◌, ◌++◌, arith}
use mathlib.Core.Path.{subst}
use durarun_operator.Wal.{
  Record, Writer, Directory, parsed, ok, err, malformed_line, create_file, add_line, write_line,
  parse_file_num, map_result, read_all, read_files, read_file, check_sequence,
}
use durarun_operator.Wal.Writing.{
  new_writer, resume_at, write, write_rotated, append, perform, perform_all, Operation, step_begin,
  step_end, record_of,
}
use durarun_operator.Wal.Files.{file}
use durarun_operator.Wal.RoundTrip.{records_from, without_faults, line_of}
use durarun_operator.Wal.Resume.{number_after, read_all-perform_all}
use durarun_operator.Wal.Manifest.{is_step_completed, last_completed_step}
use durarun_operator.Wal.Manifest.Completed.{is_completed_in, is_step_completed_eq}

-- Every line has 100 bytes.
abbrev hundred : Record → ℕ
hundred r = 100

abbrev run : List Operation
run = step_begin "a" (pos 1) ∷ step_end "a" (pos 0) "out" (pos 2) ∷ step_begin "b" (pos 3) ∷ []

abbrev one_step : List Record
one_step = records_from 1 (step_begin "z" (pos 0) ∷ [])

-- A directory that was written before.
abbrev old_log : Directory
old_log =
    file 3 (
      record { size = 100; content = parsed (record_of 1 (step_begin "z" (pos 0))); ended = true }
      ∷ [])
    ∷ []

old_log-reads : read_all old_log ≡ ok one_step
unfolding read_all read_files read_file check_sequence record_of
old_log-reads = refl

old_log-number : number_after hundred run (new_writer old_log) ≡ 3
unfolding new_writer resume_at read_files read_file perform_all perform append write_rotated write
    create_file parse_file_num write_line
old_log-number = refl

read_all-perform_all_example :
    (w : Writer) × (new_writer old_log ≡ ok w)
    × (read_all (perform_all hundred w (without_faults run)).dir
        ≡ ok (one_step ++ records_from 2 run))
read_all-perform_all_example =
    read_all-perform_all hundred old_log one_step run (tt, tt) (omega arith, tt) refl old_log-reads
      (omega arith, (omega arith, (omega arith, tt)))
      (subst (λ n. n < 10000) (sym old_log-number) (omega arith))

abbrev new_log : Writer
new_log = record { seq = 0; is_open = true; file_num = 1; file_size = 0; dir = file 1 [] ∷ [] }

is_step_completed_eq_example :
    is_step_completed old_log "z" ≡ map_result (is_completed_in "z") (read_all old_log)
is_step_completed_eq_example = is_step_completed_eq old_log "z"

-- File 10000 stands before file 9999, and NewWriter goes on in the latter.
file_names : create_file 10000 (file 9999 [] ∷ []) ≡ file 10000 [] ∷ file 9999 [] ∷ []
unfolding create_file
file_names = refl

-- A record that is written behind a last line without a newline is lost with that line.
glued_line :
    read_file (
      add_line
        (record {
          size = 99;
          content = parsed (record_of 1 (step_begin "a" (pos 1)));
          ended = false;
        }
          ∷ [])
        (line_of hundred (record_of 2 (step_begin "b" (pos 2)))))
    ≡ err malformed_line
unfolding add_line read_file
glued_line = refl

-- Step a ends after step b, and LastCompletedStep names b, which began later.
abbrev crossed : Directory
crossed =
    file 1 (
      line_of hundred (record_of 1 (step_begin "a" (pos 1)))
      ∷ line_of hundred (record_of 2 (step_begin "b" (pos 2)))
      ∷ line_of hundred (record_of 3 (step_end "b" (pos 0) "" (pos 3)))
      ∷ line_of hundred (record_of 4 (step_end "a" (pos 0) "" (pos 4)))
      ∷ [])
    ∷ []

last_completed_step-crossed : last_completed_step crossed ≡ ok "b"
unfolding last_completed_step read_all read_files read_file check_sequence record_of
last_completed_step-crossed = refl
