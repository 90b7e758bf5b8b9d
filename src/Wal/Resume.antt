-- ===== src/Wal/Resume.antt =====
-- NewWriter on a directory that ReadAll accepts (wal/writer.go, wal/reader.go).
use mathlib.Core.Path.{subst}
use durarun_operator.Prelude.{
  ℕ, zero, suc, Bool, ◌≤◌, ◌<◌, ◌+◌, ◌≡◌, refl, sym, ap, ◌∙◌, true, Option, none, some, List, [],
  ◌∷◌, ◌++◌, arith, leb, if◌then◌else◌, All, All-append, length, Bool-cases, inl, inr,
}
use durarun_operator.Wal.{
  Record, Line, LogFile, Directory, Writer, WalResult, ok, err, WalError, and_then, or_records,
  create_file, first_four, parse_file_num, read_file, read_files, max_line_size, max_file_size,
  read_all, check_sequence,
}
use durarun_operator.Wal.Writing.{
  last_file, size_of, max_seq, new_writer, resume_at, perform_all, Operation,
}
use durarun_operator.Wal.Numbering.{perform_all-grows}
use durarun_operator.Wal.Files.{
  is_ended, Below, file, create_file-absent, create_file-present, Below-weaken, read_files-create,
}
use durarun_operator.Wal.RoundTrip.{
  Holds, Ready, read_all-Ready, records_from, without_faults, perform_all-Ready,
}

-- The numbers of the files increase along the directory.
abbrev pub Increasing : Directory → Type 0
Increasing [] = Unit
Increasing (f ∷ fs) = All (λ g. f.num < g.num) fs × Increasing fs

All-last :
    (n : ℕ) (f : LogFile) (fs : Directory)
    → All (λ g. n < g.num) (f ∷ fs)
    → n < (last_file f fs).num
All-last n f [] h = h.0
All-last n f (g ∷ fs) h = All-last n g fs h.1

-- The last line of the last file ends in its newline.
abbrev pub is_complete : Directory → Bool
is_complete [] = true
is_complete (f ∷ fs) = is_ended (last_file f fs).lines

first_four-same : (fuel n : ℕ) → n < 10000 → first_four fuel n ≡ n
unfolding first_four
first_four-same zero n h = refl
first_four-same (suc fuel) n h = ground arith

parse_file_num-same : (n : ℕ) → n < 10000 → parse_file_num n ≡ n
unfolding parse_file_num
parse_file_num-same n h = first_four-same n n h

All-last_file :
    (P : LogFile → Type 0) (f : LogFile) (fs : Directory) → All P (f ∷ fs) → P (last_file f fs)
All-last_file P f [] h = h.0
All-last_file P f (g ∷ fs) h = All-last_file P g fs h.1

-- The files before the last one.
record Split (f : LogFile) (fs : Directory) : Type 0 where
  older : Directory
  dir : f ∷ fs ≡ older ++ file (last_file f fs).num (last_file f fs).lines ∷ []
  below : Below (last_file f fs).num older

split : (f : LogFile) (fs : Directory) → Increasing (f ∷ fs) → Split f fs
split f [] h = record { older = []; dir = refl; below = tt }
split f (g ∷ fs) h =
    let later = split g fs h.1 in
    record {
      older = f ∷ later.older;
      dir = ap (λ x. f ∷ x) later.dir;
      below = (All-last f.num g fs h.0, later.below);
    }

max_seq-in_order :
    (m : ℕ) (rs : List Record) → check_sequence (suc m) rs ≡ none → max_seq m rs ≡ m + length rs
unfolding max_seq check_sequence
max_seq-in_order m [] h = omega arith
max_seq-in_order m (r ∷ rs) h = ground (arith, max_seq-in_order (suc m) rs)

verdict :
    (c : Option WalError) (xs rs : List Record)
    → or_records c xs ≡ ok rs
    → (ok xs ≡ ok rs) × (xs ≡ rs) × (c ≡ none)
verdict none xs rs h = (h, cc, refl)
verdict (some e) xs rs h = ground arith

-- What ReadAll has checked.
checked :
    (o : WalResult (List Record)) (rs : List Record)
    → and_then o (λ xs. or_records (check_sequence 1 xs) xs) ≡ ok rs
    → (o ≡ ok rs) × (check_sequence 1 rs ≡ none)
checked (ok xs) rs h =
    let v = verdict (check_sequence 1 xs) xs rs h in
    (v.0, subst (λ x. check_sequence 1 x ≡ none) v.1 v.2)
checked (err e) rs h = ground arith

read_all_checks :
    (dir : Directory) (rs : List Record)
    → read_all dir ≡ ok rs
    → (read_files dir ≡ ok rs) × (check_sequence 1 rs ≡ none)
unfolding read_all
read_all_checks dir rs h = checked (read_files dir) rs h

next_file-Holds :
    (dir older : Directory) (n seq size : ℕ) (lines : List Line) (rs : List Record)
    → dir ≡ older ++ file n lines ∷ []
    → suc n < 10000
    → Below n older
    → read_files dir ≡ ok rs
    → Holds
        (record {
          seq = seq;
          is_open = true;
          file_num = suc n;
          file_size = size;
          dir = create_file (suc n) dir;
        })
        rs
next_file-Holds dir older n seq size lines rs e four below reads =
    let wider : Below (suc n) (older ++ file n lines ∷ []) =
      All-append (λ f. f.num < suc n) older (file n lines ∷ []) (Below-weaken n older below)
        (omega arith, tt) in
    let dir_eq =
      ap (create_file (suc n)) e
      ∙ create_file-absent (suc n) (older ++ file n lines ∷ []) four wider in
    record {
      older = older ++ file n lines ∷ [];
      lines = [];
      dir = dir_eq;
      below = wider;
      ended = refl;
      is_open = refl;
      reads =
          ap read_files dir_eq
          ∙ read_files-create (older ++ file n lines ∷ []) (suc n) rs
              (ap read_files (sym e) ∙ reads);
    }

same_file-Holds :
    (dir older : Directory) (n seq size : ℕ) (lines : List Line) (rs : List Record)
    → dir ≡ older ++ file n lines ∷ []
    → n < 10000
    → is_ended lines ≡ true
    → Below n older
    → read_files dir ≡ ok rs
    → Holds
        (record {
          seq = seq;
          is_open = true;
          file_num = n;
          file_size = size;
          dir = create_file n dir;
        })
        rs
same_file-Holds dir older n seq size lines rs e four ended below reads =
    let dir_eq = ap (create_file n) e ∙ create_file-present n older lines four below in
    record {
      older = older;
      lines = lines;
      dir = dir_eq;
      below = below;
      ended = ended;
      is_open = refl;
      reads = ap read_files (dir_eq ∙ sym e) ∙ reads;
    }

resume_at-Holds :
    (f : LogFile) (fs : Directory) (rs : List Record) (seq : ℕ)
    → Increasing (f ∷ fs)
    → (last_file f fs).num < 10000
    → is_complete (f ∷ fs) ≡ true
    → read_files (f ∷ fs) ≡ ok rs
    → (resume_at (f ∷ fs) (last_file f fs) seq).file_num < 10000
    → Holds (resume_at (f ∷ fs) (last_file f fs) seq) rs
unfolding resume_at
resume_at-Holds f fs rs seq h four ended reads =
    let s = split f fs h in
    let last = last_file f fs in
    let named = parse_file_num-same last.num four in
    elim (Bool-cases (leb max_file_size (size_of last.lines))) [
      | inl e ↦
          rw (e, if◌then◌else◌, named)
            (λ next.
              next_file-Holds (f ∷ fs) s.older last.num seq 0 last.lines rs s.dir next s.below
                reads)
      | inr e ↦
          rw (e, if◌then◌else◌, named)
            (λ same.
              same_file-Holds (f ∷ fs) s.older last.num seq (size_of last.lines) last.lines rs s.dir
                same ended s.below reads)
    ]

resume_at-seq : (dir : Directory) (last : LogFile) (seq : ℕ) → (resume_at dir last seq).seq ≡ seq
unfolding resume_at
resume_at-seq dir last seq = refl

no_records : (rs : List Record) → read_files [] ≡ ok rs → [] ≡ rs
unfolding read_files
no_records rs h = cc

fresh : Writer
fresh = record { seq = 0; is_open = true; file_num = 1; file_size = 0; dir = create_file 1 [] }

fresh-Ready : Ready fresh []
unfolding fresh create_file read_files read_file check_sequence
fresh-Ready = record {
  holds = record {
    older = [];
    lines = [];
    dir = refl;
    below = tt;
    ended = refl;
    is_open = refl;
    reads = refl;
  };
  seq = refl;
  in_order = refl;
}

-- A directory that ReadAll accepts is opened, and the writer goes on after its last record.
pub new_writer-Ready :
    (dir : Directory) (rs : List Record)
    → Increasing dir
    → All (λ f. f.num < 10000) dir
    → is_complete dir ≡ true
    → read_all dir ≡ ok rs
    → (w : Writer) × (new_writer dir ≡ ok w) × (w.file_num < 10000 → Ready w rs)
unfolding new_writer fresh
new_writer-Ready [] rs h four ended reads = (
  fresh,
  refl,
  λ small. subst (Ready fresh) (no_records rs (read_all_checks [] rs reads).0) fresh-Ready,
)
new_writer-Ready (f ∷ fs) rs h four ended reads =
    let c = read_all_checks (f ∷ fs) rs reads in
    let w = resume_at (f ∷ fs) (last_file f fs) (max_seq 0 rs) in
    let last = All-last_file (λ g. g.num < 10000) f fs four in
    (
      w,
      rw c.0 refl,
      λ small. record {
        holds = resume_at-Holds f fs rs (max_seq 0 rs) h last ended c.0 small;
        seq = omega (
          arith,
          resume_at-seq (f ∷ fs) (last_file f fs) (max_seq 0 rs),
          max_seq-in_order 0 rs c.1,
        );
        in_order = c.1;
      },
    )

module _ (line_size : Record → ℕ) where
  -- The number of the last file, when the operations follow NewWriter.
  abbrev pub number_after : List Operation → WalResult Writer → ℕ
  number_after ops (ok w) = (perform_all line_size w (without_faults ops)).file_num
  number_after ops (err e) = 0

  -- A directory whose file numbers increase and are at most 9999, whose last line ends in a
  -- newline, and that ReadAll accepts is opened by NewWriter. After any operations without a fault,
  -- whose lines fit the reader's buffer and which end in a file with a number of at most 9999,
  -- ReadAll returns the records from before and then one record for each operation, in order and
  -- numbered on.
  pub read_all-perform_all :
      (dir : Directory) (rs : List Record) (ops : List Operation)
      → Increasing dir
      → All (λ f. f.num < 10000) dir
      → is_complete dir ≡ true
      → read_all dir ≡ ok rs
      → All (λ r. line_size r ≤ max_line_size) (records_from (suc (length rs)) ops)
      → number_after ops (new_writer dir) < 10000
      → (w : Writer) × (new_writer dir ≡ ok w)
        × (read_all (perform_all line_size w (without_faults ops)).dir
            ≡ ok (rs ++ records_from (suc (length rs)) ops))
  read_all-perform_all dir rs ops h numbers ended reads fits four =
      let (w, opened, at) = new_writer-Ready dir rs h numbers ended reads in
      let last = subst (λ o. number_after ops o < 10000) opened four in
      let ready = at (omega (arith, perform_all-grows line_size (without_faults ops) w, last)) in
      (
        w,
        opened,
        subst
            (λ n.
              read_all (perform_all line_size w (without_faults ops)).dir
              ≡ ok (rs ++ records_from (suc n) ops))
            ready.seq
            (read_all-Ready _ _ (
              perform_all-Ready line_size ops w rs last ready (
                subst (λ n. All (λ r. line_size r ≤ max_line_size) (records_from (suc n) ops))
                  (sym ready.seq) fits))),
      )
