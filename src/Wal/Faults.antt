-- ===== src/Wal/Faults.antt =====
-- What faults of the operating system do to the log (wal/writer.go, wal/reader.go).
use durarun_operator.Prelude.{ℕ, suc, ◌≤◌, ◌≡◌, List}
use durarun_operator.Wal.{Record, Writer, WalResult, err, io_error}
use durarun_operator.Wal.RoundTrip.{Holds}

-- The operation failed with an error of the system, and the log holds what it held.
record IsLost (w : Writer) (rs : List Record) (result : WalResult ℕ × Writer) : Type 0 where
  returned : result.0 ≡ err io_error
  same_seq : result.1.seq ≡ w.seq
  file_num : result.1.file_num ≤ suc w.file_num
  holds : Holds result.1 rs
