-- ===== src/Wal/RoundTrip.antt =====
-- What the writer has recorded, ReadAll returns (wal/writer.go, wal/reader.go).
use mathlib.Core.List.{append_assoc, append-nil}
use mathlib.Core.Path.{subst}
use durarun_operator.Prelude.{
  ℕ, suc, ◌≤◌, ◌<◌, ◌+◌, ◌≡◌, refl, sym, ap, ◌∙◌, true, none, List, [], ◌∷◌, ◌++◌, arith, ltb,
  if◌then◌else◌, All, All-append, length, length-append, Bool-cases, inl, inr,
}
use durarun_operator.Wal.{
  Record, parsed, Line, Directory, Writer, Fault, no_fault, WalResult, ok, err, create_file,
  write_line, read_file, read_files, max_line_size, max_file_size, read_all, check_sequence,
}
use durarun_operator.Wal.Writing.{
  rotate, write, write_rotated, append, synced, Operation, step_begin, step_timeout, step_end,
  step_retry, job_cancelled, record_of, bump, perform, perform_all,
}
use durarun_operator.Wal.Numbering.{perform_rotates, perform_all-grows}
use durarun_operator.Wal.Files.{
  is_ended, is_ended-append, Below, file, create_file-absent, write_line-last, Below-weaken,
  read_files-write, read_files-create, check_sequence-append,
}

-- The writer's file is open and is the last one of a directory that holds the records.
pub record Holds (w : Writer) (rs : List Record) : Type 0 where
  pub older : Directory
  pub lines : List Line
  pub dir : w.dir ≡ older ++ file w.file_num lines ∷ []
  pub below : Below w.file_num older
  pub ended : is_ended lines ≡ true
  pub is_open : w.is_open ≡ true
  pub reads : read_files w.dir ≡ ok rs

-- And the numbers run from 1 to the writer's.
pub record Ready (w : Writer) (rs : List Record) : Type 0 where
  pub holds : Holds w rs
  pub seq : w.seq ≡ length rs
  pub in_order : check_sequence 1 rs ≡ none

pub read_all-Ready : (w : Writer) (rs : List Record) → Ready w rs → read_all w.dir ≡ ok rs
unfolding read_all
read_all-Ready w rs h = rw (h.holds.reads, h.in_order)

-- The records that operations write, from a number on.
abbrev pub records_from : ℕ → List Operation → List Record
records_from n [] = []
records_from n (op ∷ ops) = record_of n op ∷ records_from (suc n) ops

abbrev pub without_faults : List Operation → List (Fault × Operation)
without_faults [] = []
without_faults (op ∷ ops) = (no_fault, op) ∷ without_faults ops

unfoldable pub rotated : Writer → Writer
rotated w = record w {
  file_num = suc w.file_num;
  file_size = 0;
  dir = create_file (suc w.file_num) w.dir;
}

pub rotate-Holds :
    (w : Writer) (rs : List Record)
    → suc w.file_num < 10000
    → Holds w rs
    → (rotate no_fault w ≡ (none, rotated w)) × Holds (rotated w) rs
unfolding rotate rotated
rotate-Holds w rs four h =
    let below : Below (suc w.file_num) (h.older ++ file w.file_num h.lines ∷ []) =
      All-append (λ f. f.num < suc w.file_num) h.older (file w.file_num h.lines ∷ [])
        (Below-weaken w.file_num h.older h.below) (omega arith, tt) in
    let dir_eq =
      ap (create_file (suc w.file_num)) h.dir
      ∙ create_file-absent (suc w.file_num) (h.older ++ file w.file_num h.lines ∷ []) four below in
    (
      ground (arith, h.is_open),
      record {
        older = h.older ++ file w.file_num h.lines ∷ [];
        lines = [];
        dir = dir_eq;
        below = below;
        ended = refl;
        is_open = h.is_open;
        reads =
            ap read_files dir_eq
            ∙ read_files-create (h.older ++ file w.file_num h.lines ∷ []) (suc w.file_num) rs
                (ap read_files (sym h.dir) ∙ h.reads);
      },
    )

pub bump-Holds : (w : Writer) (rs : List Record) → Holds w rs → Holds (bump w) rs
unfolding bump
bump-Holds w rs h = record {
  older = h.older;
  lines = h.lines;
  dir = h.dir;
  below = h.below;
  ended = h.ended;
  is_open = h.is_open;
  reads = h.reads;
}

pub record_of-seq : (n : ℕ) (op : Operation) → (record_of n op).seq ≡ n
unfolding record_of
record_of-seq n (step_begin id t) = refl
record_of-seq n (step_timeout id t) = refl
record_of-seq n (step_end id exit ref t) = refl
record_of-seq n (step_retry id attempt t) = refl
record_of-seq n (job_cancelled reason t) = refl

module _ (line_size : Record → ℕ) where
  abbrev pub line_of : Record → Line
  line_of r = record { size = line_size r; content = parsed r; ended = true }

  read_line_of :
      (r : Record) → line_size r ≤ max_line_size → read_file (line_of r ∷ []) ≡ ok (r ∷ [])
  unfolding read_file
  read_line_of r fits = ground arith

  -- The result of an append that succeeds.
  pub record Appended (w : Writer) (rs : List Record) (r : Record) (result : WalResult ℕ × Writer)
      : Type 0 where
    pub returned : result.0 ≡ ok r.seq
    pub same_seq : result.1.seq ≡ w.seq
    pub holds : Holds result.1 (rs ++ r ∷ [])

  -- The writer after a write.
  written : Writer → Record → Writer
  written w r = record w {
    file_size = w.file_size + line_size r;
    dir = write_line w.file_num (line_of r) w.dir;
  }

  write-eq-written :
      (w : Writer) (r : Record)
      → w.is_open ≡ true
      → write line_size no_fault w r ≡ (ok r.seq, written w r)
  unfolding write written
  write-eq-written w r o = ground arith

  write-Appended :
      (w : Writer) (rs : List Record) (r : Record)
      → Holds w rs
      → line_size r ≤ max_line_size
      → Appended w rs r (write line_size no_fault w r)
  unfolding written
  write-Appended w rs r h fits =
      let dir_eq =
        ap (write_line w.file_num (line_of r)) h.dir
        ∙ write_line-last w.file_num (line_of r) h.older h.lines h.ended h.below in
      subst (Appended w rs r) (sym (write-eq-written w r h.is_open)) record {
        returned = refl;
        same_seq = refl;
        holds = record {
          older = h.older;
          lines = h.lines ++ line_of r ∷ [];
          dir = dir_eq;
          below = h.below;
          ended = is_ended-append h.lines (line_of r) refl;
          is_open = h.is_open;
          reads =
              ap read_files dir_eq
              ∙ read_files-write h.older w.file_num h.lines (line_of r) rs r
                  (ap read_files (sym h.dir) ∙ h.reads) (read_line_of r fits);
        };
      }

  append_rotated :
      (w : Writer) (rs : List Record) (r : Record)
      → suc w.file_num < 10000
      → Holds w rs
      → line_size r ≤ max_line_size
      → Appended w rs r (write line_size no_fault (rotated w) r)
  unfolding rotated
  append_rotated w rs r four h fits =
      let a = write-Appended (rotated w) rs r (rotate-Holds w rs four h).1 fits in
      record { returned = a.returned; same_seq = a.same_seq; holds = a.holds }

  -- The file that a rotation would open has a number of four digits, or the append does not rotate.
  abbrev pub Fits : Writer → Record → Type 0
  Fits w r = ltb max_file_size (w.file_size + line_size r) ≡ true → suc w.file_num < 10000

  pub append-Appended :
      (w : Writer) (rs : List Record) (r : Record)
      → Fits w r
      → Holds w rs
      → line_size r ≤ max_line_size
      → Appended w rs r (append line_size no_fault w r)
  unfolding append write_rotated
  append-Appended w rs r four h fits =
      elim (Bool-cases (ltb max_file_size (w.file_size + line_size r))) [
        | inl e ↦
            rw (e, if◌then◌else◌, (rotate-Holds w rs (four e) h).0)
              (append_rotated w rs r (four e) h fits)
        | inr e ↦ rw (e, if◌then◌else◌) (write-Appended w rs r h fits)
      ]

  synced-same : (p : WalResult ℕ × Writer) → p.1.is_open ≡ true → synced no_fault p ≡ p
  synced-same (ok seq, w) o = ground arith
  synced-same (err e, w) o = refl

  -- Without a fault an operation is an append under the next number.
  pub perform-append :
      (w : Writer) (rs : List Record) (op : Operation)
      → Appended
          (bump w)
          rs
          (record_of (suc w.seq) op)
          (append line_size no_fault (bump w) (record_of (suc w.seq) op))
      → perform line_size no_fault w op
        ≡ append line_size no_fault (bump w) (record_of (suc w.seq) op)
  unfolding perform
  perform-append w rs (step_begin id t) a = refl
  perform-append w rs (step_timeout id t) a = synced-same _ a.holds.is_open
  perform-append w rs (step_end id exit ref t) a = synced-same _ a.holds.is_open
  perform-append w rs (step_retry id attempt t) a = synced-same _ a.holds.is_open
  perform-append w rs (job_cancelled reason t) a = synced-same _ a.holds.is_open

  check_sequence-one : (k : ℕ) (r : Record) → r.seq ≡ k → check_sequence k (r ∷ []) ≡ none
  unfolding check_sequence
  check_sequence-one k r h = ground arith

  -- One operation without a fault returns the next number and leaves the writer ready with one
  -- record more.
  pub perform-Ready :
      (w : Writer) (rs : List Record) (op : Operation)
      → Fits (bump w) (record_of (suc w.seq) op)
      → Ready w rs
      → line_size (record_of (suc w.seq) op) ≤ max_line_size
      → ((perform line_size no_fault w op).0 ≡ ok (suc w.seq))
        × ((perform line_size no_fault w op).1.seq ≡ suc w.seq)
        × Ready (perform line_size no_fault w op).1 (rs ++ record_of (suc w.seq) op ∷ [])
  unfolding bump
  perform-Ready w rs op four h fits =
      let r = record_of (suc w.seq) op in
      let a = append-Appended (bump w) rs r four (bump-Holds w rs h.holds) fits in
      rw (perform-append w rs op a) (
        a.returned ∙ ap ok (record_of-seq (suc w.seq) op),
        a.same_seq,
        record {
          holds = a.holds;
          seq = omega (arith, a.same_seq, h.seq, length-append rs (r ∷ []));
          in_order =
              check_sequence-append 1 rs r h.in_order
              ∙ check_sequence-one (1 + length rs) r
                  (omega (arith, record_of-seq (suc w.seq) op, h.seq));
        },
      )

  pub perform_all-Ready :
      (ops : List Operation) (w : Writer) (rs : List Record)
      → (perform_all line_size w (without_faults ops)).file_num < 10000
      → Ready w rs
      → All (λ r. line_size r ≤ max_line_size) (records_from (suc w.seq) ops)
      → Ready (perform_all line_size w (without_faults ops)) (rs ++ records_from (suc w.seq) ops)
  unfolding perform_all
  perform_all-Ready [] w rs four h fits = subst (Ready w) (sym (append-nil rs)) h
  perform_all-Ready (op ∷ ops) w rs four h fits =
      let w' = (perform line_size no_fault w op).1 in
      let grows = perform_all-grows line_size (without_faults ops) w' in
      let one =
        perform-Ready w rs op
          (λ e. omega (arith, perform_rotates line_size w op h.holds.is_open e, grows, four)) h
          fits.0 in
      let r = record_of (suc w.seq) op in
      let later = perform_all-Ready ops w' (rs ++ r ∷ []) four one.2 (
        subst (λ n. All (λ r. line_size r ≤ max_line_size) (records_from (suc n) ops)) (sym one.1)
          fits.1) in
      let last = perform_all line_size w' (without_faults ops) in
      subst (λ n. Ready last (rs ++ r ∷ records_from (suc n) ops)) one.1
        (subst (Ready last) (append_assoc rs (r ∷ []) (records_from (suc w'.seq) ops)) later)
