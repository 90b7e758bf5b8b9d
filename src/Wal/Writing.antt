-- ===== src/Wal/Writing.antt =====
-- wal/writer.go: opening the log, rotation, and the five operations.
use durarun_operator.Prelude.{
  ℕ, suc, ◌+◌, ℤ, pos, String, Bool, true, false, not, ◌&&◌, Option, none, some, List, [], ◌∷◌, ltb,
  leb, if◌then◌else◌,
}
use durarun_operator.Wal.{
  type_step_begin, type_step_end, type_step_retry, type_step_timeout, type_job_cancelled, Record,
  max_file_size, parsed, Line, LogFile, Directory, Writer, Fault, rotate_sync_failed,
  rotate_close_failed, rotate_open_failed, write_failed, fsync_failed, WalError, io_error,
  WalResult, ok, err, map_result, create_file, write_line, parse_file_num, read_files,
}

unfoldable pub max_seq : ℕ → List Record → ℕ
max_seq m [] = m
max_seq m (r ∷ rs) = max_seq (if ltb m r.seq then r.seq else m) rs

abbrev pub size_of : List Line → ℕ
size_of [] = 0
size_of (l ∷ ls) = l.size + size_of ls

abbrev pub last_file : LogFile → Directory → LogFile
last_file f [] = f
last_file f (g ∷ fs) = last_file g fs

unfoldable pub resume_at : Directory → LogFile → ℕ → Writer
resume_at dir last seq =
    let full = leb max_file_size (size_of last.lines) in
    let num = if full then suc (parse_file_num last.num) else parse_file_num last.num in
    record {
      seq = seq;
      is_open = true;
      file_num = num;
      file_size = if full then 0 else size_of last.lines;
      dir = create_file num dir;
    }

-- NewWriter, when the system calls succeed.
unfoldable pub new_writer : Directory → WalResult Writer
unfolding resume_at max_seq read_files
new_writer [] =
    ok (record { seq = 0; is_open = true; file_num = 1; file_size = 0; dir = create_file 1 [] })
new_writer (f ∷ fs) =
    map_result (λ rs. resume_at (f ∷ fs) (last_file f fs) (max_seq 0 rs)) (read_files (f ∷ fs))

-- The rotation in `append`: an error, if any, and the writer afterwards.
unfoldable pub rotate : Fault → Writer → Option WalError × Writer
rotate rotate_sync_failed w = (some io_error, w)
rotate rotate_close_failed w = (some io_error, record w { is_open = false })
rotate rotate_open_failed w = (
  some io_error,
  if w.is_open then record w { is_open = false; file_num = suc w.file_num; file_size = 0 } else w,
)
rotate _ w =
    if w.is_open
    then (
      none,
      record w {
        file_num = suc w.file_num;
        file_size = 0;
        dir = create_file (suc w.file_num) w.dir;
      },
    )
    else (some io_error, w)

abbrev pub is_write_failed : Fault → Bool
is_write_failed write_failed = true
is_write_failed _ = false

abbrev pub is_fsync_failed : Fault → Bool
is_fsync_failed fsync_failed = true
is_fsync_failed _ = false

module _ (line_size : Record → ℕ) where
  unfoldable pub write : Fault → Writer → Record → WalResult ℕ × Writer
  write fault w r =
      if w.is_open && not (is_write_failed fault)
      then (
        ok r.seq,
        record w {
          file_size = w.file_size + line_size r;
          dir =
              write_line w.file_num
                (record { size = line_size r; content = parsed r; ended = true }) w.dir;
        },
      )
      else (err io_error, w)

  unfoldable pub write_rotated : Fault → Option WalError × Writer → Record → WalResult ℕ × Writer
  unfolding write
  write_rotated fault (none, w) r = write fault w r
  write_rotated fault (some e, w) r = (err e, w)

  -- Writer.append
  unfoldable pub append : Fault → Writer → Record → WalResult ℕ × Writer
  unfolding write_rotated rotate
  append fault w r =
      if ltb max_file_size (w.file_size + line_size r)
      then write_rotated fault (rotate fault w) r
      else write fault w r

-- The fsync after an append.
abbrev pub synced : Fault → WalResult ℕ × Writer → WalResult ℕ × Writer
synced fault (err e, w) = (err e, w)
synced fault (ok seq, w) =
    if w.is_open && not (is_fsync_failed fault) then (ok seq, w) else (err io_error, w)

-- What a caller records, with the time.
pub data Operation : Type 0 where
  step_begin step_timeout : String → ℤ → Operation
  step_end : String → ℤ → String → ℤ → Operation
  step_retry : String → ℤ → ℤ → Operation
  job_cancelled : String → ℤ → Operation

abbrev empty_record : Record
empty_record = record {
  seq = 0;
  type = type_step_begin;
  step_id = "";
  timestamp = pos 0;
  exit = none;
  output_ref = "";
  attempt = pos 0;
  reason = "";
}

-- The record that an operation writes under a sequence number.
unfoldable pub record_of : ℕ → Operation → Record
record_of n (step_begin id t) = record empty_record { seq = n; step_id = id; timestamp = t }
record_of n (step_end id exit ref t) = record empty_record {
  seq = n;
  type = type_step_end;
  step_id = id;
  timestamp = t;
  exit = some exit;
  output_ref = ref;
}
record_of n (step_retry id attempt t) = record empty_record {
  seq = n;
  type = type_step_retry;
  step_id = id;
  timestamp = t;
  attempt = attempt;
}
record_of n (step_timeout id t) = record empty_record {
  seq = n;
  type = type_step_timeout;
  step_id = id;
  timestamp = t;
  reason = "timeout";
}
record_of n (job_cancelled reason t) = record empty_record {
  seq = n;
  type = type_job_cancelled;
  timestamp = t;
  reason = reason;
}

-- `w.seq++`
unfoldable pub bump : Writer → Writer
bump w = record w { seq = suc w.seq }

module _ (line_size : Record → ℕ) where
  -- StepBegin is not synced, the others are.
  unfoldable pub perform : Fault → Writer → Operation → WalResult ℕ × Writer
  unfolding append bump record_of
  perform fault w (step_begin id t) =
      append line_size fault (bump w) (record_of (suc w.seq) (step_begin id t))
  perform fault w (step_end id exit ref t) =
      synced fault
        (append line_size fault (bump w) (record_of (suc w.seq) (step_end id exit ref t)))
  perform fault w (step_retry id attempt t) =
      synced fault
        (append line_size fault (bump w) (record_of (suc w.seq) (step_retry id attempt t)))
  perform fault w (step_timeout id t) =
      synced fault (append line_size fault (bump w) (record_of (suc w.seq) (step_timeout id t)))
  perform fault w (job_cancelled reason t) =
      synced fault
        (append line_size fault (bump w) (record_of (suc w.seq) (job_cancelled reason t)))

  -- Operations one after another, with what goes wrong in each.
  unfoldable pub perform_all : Writer → List (Fault × Operation) → Writer
  unfolding perform
  perform_all w [] = w
  perform_all w ((fault, op) ∷ rest) = perform_all (perform fault w op).1 rest
