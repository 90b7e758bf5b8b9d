-- ===== src/Wal/Files.antt =====
-- A directory of log files whose last one is being written (wal/writer.go, wal/reader.go).
use mathlib.Core.List.{append_assoc, append-nil}
use durarun_operator.Prelude.{
  ℕ, suc, ◌<◌, ◌+◌, ◌≡◌, refl, sym, ap, ◌∙◌, Bool, true, false, if◌then◌else◌, none, List, [], ◌∷◌,
  ◌++◌, arith, All, length,
}
use durarun_operator.Wal.{
  Record, Line, LogFile, Directory, WalResult, ok, err, map_result, and_then, create_file,
  name_before, add_line, write_line, read_line, read_file, read_files, check_sequence,
}

abbrev pub Below : ℕ → Directory → Type 0
Below n dir = All (λ f. f.num < n) dir

abbrev pub file : ℕ → List Line → LogFile
file n lines = record { num = n; lines = lines }

-- The names of files up to 9999 have four digits.
name_before-four : (n m : ℕ) → n < 10000 → m < n → name_before n m ≡ false
unfolding name_before
name_before-four n m h k = ground arith

pub create_file-absent :
    (n : ℕ) (dir : Directory) → n < 10000 → Below n dir → create_file n dir ≡ dir ++ file n [] ∷ []
unfolding create_file
create_file-absent n [] four h = refl
create_file-absent n (f ∷ fs) four h =
    ground (arith, create_file-absent n fs four h.1, h.0, name_before-four n f.num four h.0)

pub create_file-present :
    (n : ℕ) (dir : Directory) (lines : List Line)
    → n < 10000
    → Below n dir
    → create_file n (dir ++ file n lines ∷ []) ≡ dir ++ file n lines ∷ []
unfolding create_file
create_file-present n [] lines four h = ground arith
create_file-present n (f ∷ fs) lines four h =
    ground (arith, create_file-present n fs lines four h.1, h.0, name_before-four n f.num four h.0)

-- The last line, if there is one, ends in its newline.
abbrev pub is_ended : List Line → Bool
is_ended [] = true
is_ended (l ∷ []) = l.ended
is_ended (l ∷ m ∷ ls) = is_ended (m ∷ ls)

add_line-ended : (ls : List Line) (l : Line) → is_ended ls ≡ true → add_line ls l ≡ ls ++ l ∷ []
unfolding add_line
add_line-ended [] l h = refl
add_line-ended (k ∷ []) l h = rw (h, if◌then◌else◌) refl
add_line-ended (k ∷ j ∷ ks) l h = ap (λ x. k ∷ x) (add_line-ended (j ∷ ks) l h)

pub is_ended-append : (ls : List Line) (l : Line) → l.ended ≡ true → is_ended (ls ++ l ∷ []) ≡ true
is_ended-append [] l h = h
is_ended-append (k ∷ []) l h = h
is_ended-append (k ∷ j ∷ ks) l h = is_ended-append (j ∷ ks) l h

pub write_line-last :
    (n : ℕ) (l : Line) (dir : Directory) (lines : List Line)
    → is_ended lines ≡ true
    → Below n dir
    → write_line n l (dir ++ file n lines ∷ []) ≡ dir ++ file n (lines ++ l ∷ []) ∷ []
unfolding write_line
write_line-last n l [] lines e h = ground (arith, add_line-ended lines l e)
write_line-last n l (f ∷ fs) lines e h = ground (arith, write_line-last n l fs lines e h.1, h.0)

pub Below-weaken : (n : ℕ) (dir : Directory) → Below n dir → Below (suc n) dir
Below-weaken n [] h = tt
Below-weaken n (f ∷ fs) h = (omega (arith, h.0), Below-weaken n fs h.1)

-- What the first part reads and what the second part reads, one after the other.
abbrev pub joined : WalResult (List Record) → WalResult (List Record) → WalResult (List Record)
joined a b = and_then a λ rs. map_result (λ later. rs ++ later) b

joined_assoc : (a b c : WalResult (List Record)) → joined a (joined b c) ≡ joined (joined a b) c
joined_assoc (ok a) (ok b) (ok c) = ap ok (sym (append_assoc a b c))
joined_assoc (ok a) (ok b) (err e) = refl
joined_assoc (ok a) (err e) c = refl
joined_assoc (err e) b c = refl

joined-nil : (a : WalResult (List Record)) → joined (ok []) a ≡ a
joined-nil (ok a) = refl
joined-nil (err e) = refl

joined-read_line :
    (l : Line) (a b : WalResult (List Record)) → read_line l (joined a b) ≡ joined (read_line l a) b
joined-read_line l (ok a) (ok b) = ground arith
joined-read_line l (ok a) (err e) = ground arith
joined-read_line l (err e) b = ground arith

joined-nil_right : (a : WalResult (List Record)) → joined a (ok []) ≡ a
joined-nil_right (ok a) = ap ok (append-nil a)
joined-nil_right (err e) = refl

pub read_file-append :
    (ls ms : List Line) → read_file (ls ++ ms) ≡ joined (read_file ls) (read_file ms)
unfolding read_file
read_file-append [] ms = sym (joined-nil (read_file ms))
read_file-append (l ∷ ls) ms =
    ap (read_line l) (read_file-append ls ms) ∙ joined-read_line l (read_file ls) (read_file ms)

pub read_files-append :
    (a b : Directory) → read_files (a ++ b) ≡ joined (read_files a) (read_files b)
unfolding read_files
read_files-append [] b = sym (joined-nil (read_files b))
read_files-append (f ∷ fs) b =
    ap (λ r. joined (read_file f.lines) r) (read_files-append fs b)
    ∙ joined_assoc (read_file f.lines) (read_files fs) (read_files b)

-- One more line in the last file.
pub read_files-write :
    (dir : Directory) (n : ℕ) (lines : List Line) (l : Line) (rs : List Record) (r : Record)
    → read_files (dir ++ file n lines ∷ []) ≡ ok rs
    → read_file (l ∷ []) ≡ ok (r ∷ [])
    → read_files (dir ++ file n (lines ++ l ∷ []) ∷ []) ≡ ok (rs ++ r ∷ [])
unfolding read_files
read_files-write dir n lines l rs r h e =
    let old = read_files dir in
    let current = read_file lines in
    let before : joined old current ≡ ok rs =
      ap (joined old) (sym (joined-nil_right current))
      ∙ sym (read_files-append dir (file n lines ∷ []))
      ∙ h in
    read_files-append dir (file n (lines ++ l ∷ []) ∷ [])
    ∙ ap (joined old) (joined-nil_right (read_file (lines ++ l ∷ [])))
    ∙ ap (joined old) (read_file-append lines (l ∷ []))
    ∙ joined_assoc old current (read_file (l ∷ []))
    ∙ ap (λ x. joined x (read_file (l ∷ []))) before
    ∙ ap (joined (ok rs)) e

-- An empty file after the others.
pub read_files-create :
    (dir : Directory) (n : ℕ) (rs : List Record)
    → read_files dir ≡ ok rs
    → read_files (dir ++ file n [] ∷ []) ≡ ok rs
unfolding read_files read_file
read_files-create dir n rs h =
    read_files-append dir (file n [] ∷ []) ∙ joined-nil_right (read_files dir) ∙ h

pub check_sequence-append :
    (k : ℕ) (rs : List Record) (r : Record)
    → check_sequence k rs ≡ none
    → check_sequence k (rs ++ r ∷ []) ≡ check_sequence (k + length rs) (r ∷ [])
unfolding check_sequence
check_sequence-append k [] r h = ground arith
check_sequence-append k (x ∷ rs) r h = ground (arith, check_sequence-append (suc k) rs r)
