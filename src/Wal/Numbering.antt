-- ===== src/Wal/Numbering.antt =====
-- The number of the file that the writer writes (wal/writer.go).
use durarun_operator.Prelude.{
  ℕ, suc, ◌≤◌, ◌+◌, ◌≡◌, true, Option, none, some, List, [], ◌∷◌, arith, ltb,
}
use durarun_operator.Wal.{
  Record, Writer, Fault, no_fault, rotate_sync_failed, rotate_close_failed, rotate_open_failed,
  write_failed, fsync_failed, WalError, WalResult, ok, err, max_file_size,
}
use durarun_operator.Wal.Writing.{
  rotate, write, write_rotated, append, synced, Operation, step_begin, step_timeout, step_end,
  step_retry, job_cancelled, record_of, bump, perform, perform_all,
}

rotate-grows : (fault : Fault) (w : Writer) → w.file_num ≤ (rotate fault w).1.file_num
unfolding rotate
rotate-grows no_fault w = ground arith
rotate-grows rotate_sync_failed w = omega arith
rotate-grows rotate_close_failed w = omega arith
rotate-grows rotate_open_failed w = ground arith
rotate-grows write_failed w = ground arith
rotate-grows fsync_failed w = ground arith

synced-file_num :
    (fault : Fault) (p : WalResult ℕ × Writer) → (synced fault p).1.file_num ≡ p.1.file_num
synced-file_num fault (ok n, w) = ground arith
synced-file_num fault (err e, w) = ground arith

module _ (line_size : Record → ℕ) where
  write-file_num :
      (fault : Fault) (w : Writer) (r : Record)
      → (write line_size fault w r).1.file_num ≡ w.file_num
  unfolding write
  write-file_num fault w r = ground arith

  write_rotated-file_num :
      (fault : Fault) (p : Option WalError × Writer) (r : Record)
      → (write_rotated line_size fault p r).1.file_num ≡ p.1.file_num
  unfolding write_rotated
  write_rotated-file_num fault (none, w) r = write-file_num fault w r
  write_rotated-file_num fault (some e, w) r = ground arith

  append-grows :
      (fault : Fault) (w : Writer) (r : Record)
      → w.file_num ≤ (append line_size fault w r).1.file_num
  unfolding append
  append-grows fault w r = ground (
    arith,
    write_rotated-file_num fault (rotate fault w) r,
    rotate-grows fault w,
    write-file_num fault w r,
  )

  perform-file_num :
      (fault : Fault) (w : Writer) (op : Operation)
      → (perform line_size fault w op).1.file_num
        ≡ (append line_size fault (bump w) (record_of (suc w.seq) op)).1.file_num
  unfolding perform
  perform-file_num fault w (step_begin id t) = ground arith
  perform-file_num fault w (step_timeout id t) = synced-file_num fault _
  perform-file_num fault w (step_end id exit ref t) = synced-file_num fault _
  perform-file_num fault w (step_retry id attempt t) = synced-file_num fault _
  perform-file_num fault w (job_cancelled reason t) = synced-file_num fault _

  perform-grows :
      (fault : Fault) (w : Writer) (op : Operation)
      → w.file_num ≤ (perform line_size fault w op).1.file_num
  unfolding bump
  perform-grows fault w op =
      omega
        (arith, perform-file_num fault w op, append-grows fault (bump w) (record_of (suc w.seq) op))

  pub perform_all-grows :
      (ops : List (Fault × Operation)) (w : Writer)
      → w.file_num ≤ (perform_all line_size w ops).file_num
  unfolding perform_all
  perform_all-grows [] w = omega arith
  perform_all-grows ((fault, op) ∷ ops) w =
      omega
        (arith, perform-grows fault w op, perform_all-grows ops (perform line_size fault w op).1)

  append_rotates :
      (w : Writer) (r : Record)
      → w.is_open ≡ true
      → ltb max_file_size (w.file_size + line_size r) ≡ true
      → (append line_size no_fault w r).1.file_num ≡ suc w.file_num
  unfolding append rotate write_rotated write
  append_rotates w r o e = ground (arith, o, e)

  -- Without a fault, an operation that does not fit opens the next file.
  pub perform_rotates :
      (w : Writer) (op : Operation)
      → w.is_open ≡ true
      → ltb max_file_size ((bump w).file_size + line_size (record_of (suc w.seq) op)) ≡ true
      → (perform line_size no_fault w op).1.file_num ≡ suc w.file_num
  unfolding bump
  perform_rotates w op o e = omega (
    arith,
    perform-file_num no_fault w op,
    append_rotates (bump w) (record_of (suc w.seq) op) o e,
  )
