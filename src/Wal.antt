-- ===== src/Wal.antt =====
-- wal/record.go and reader.go: the write-ahead log of steps, and the state of its writer.
--
-- encoding/json writes a record as one line; `line_size` is the length of that line with its
-- newline, and a line that is read is a record again, blank, or text that does not parse. A
-- directory is the list of its log files in the order of their names, which is the order of strings
-- and not of numbers from file 10000 on; all its files have names that walFileName makes. A record
-- that is written behind a last line without a newline becomes part of that line. What the operating system
-- answers to the calls of one operation is a `Fault`; a write that fails writes nothing. A file that
-- was closed refuses every later call. Sequence numbers stay below 2^63.
pub mod Writing
pub mod Files
pub mod Numbering
pub mod RoundTrip
pub mod Resume
pub mod Faults
pub mod Manifest
mod Examples
use durarun_operator.Prelude.{
  ℕ, zero, suc, ◌+◌, ◌*◌, ◌/◌, ◌%◌, ℤ, pos, eq_ℤ, String, Bool, true, false, not, ◌&&◌, ◌||◌,
  Option, none, some, List, [], ◌∷◌, ◌++◌, ltb, leb, ◌==◌, max, if◌then◌else◌, str_eq, filter_if,
  map, any,
}

-- The `Type` field; `other_type` is a string that the package does not define.
pub data RecordType : Type 0 where
  type_step_begin type_step_end type_step_retry type_step_timeout type_job_cancelled : RecordType
  other_type : String → RecordType

pub record Record : Type 0 where
  pub seq : ℕ
  pub type : RecordType
  pub step_id : String
  pub timestamp : ℤ
  pub exit : Option ℤ
  pub output_ref : String
  pub attempt : ℤ
  pub reason : String

-- 10 MB, and the buffer of the reader's scanner, 1 MB
abbrev pub max_file_size : ℕ
max_file_size = 10 * 1024 * 1024

abbrev pub max_line_size : ℕ
max_line_size = 1024 * 1024

-- `blank` is a line without text, and `spaces` one of white space only, which does not parse.
pub data Content : Type 0 where
  parsed : Record → Content
  malformed spaces blank : Content

-- `ended` is false for a last line without a newline.
pub record Line : Type 0 where
  pub size : ℕ
  pub content : Content
  pub ended : Bool

pub record LogFile : Type 0 where
  pub num : ℕ
  pub lines : List Line

abbrev pub Directory : Type 0
Directory = List LogFile

pub record Writer : Type 0 where
  pub seq : ℕ
  pub is_open : Bool
  pub file_num : ℕ
  pub file_size : ℕ
  pub dir : Directory

-- What goes wrong in one operation, if anything.
pub data Fault : Type 0 where
  no_fault rotate_sync_failed rotate_close_failed rotate_open_failed write_failed fsync_failed :
      Fault

pub data WalError : Type 0 where
  io_error line_too_long malformed_line : WalError
  -- the number that was expected, and the one that was found
  sequence_gap : ℕ → ℕ → WalError

pub data WalResult {ℓ} (A : Type ℓ) : Type ℓ where
  ok : A → WalResult A
  err : WalError → WalResult A

abbrev pub map_result {ℓ κ} : {A : Type ℓ} {B : Type κ} → (A → B) → WalResult A → WalResult B
map_result f (ok a) = ok (f a)
map_result f (err e) = err e

abbrev pub and_then {ℓ κ} :
    {A : Type ℓ} {B : Type κ} → WalResult A → (A → WalResult B) → WalResult B
and_then (ok a) f = f a
and_then (err e) f = err e

-- The digits of a number, the last one first; the fuel is at least their count.
digits : ℕ → ℕ → List ℕ
digits zero n = []
digits (suc fuel) n = let more = digits fuel (n / 10) in if ltb n 10 then n ∷ [] else n % 10 ∷ more

reversed : List ℕ → List ℕ → List ℕ
reversed [] acc = acc
reversed (d ∷ ds) acc = reversed ds (d ∷ acc)

-- The order of strings of digits; a string comes before those that go on behind it.
digits_before : List ℕ → List ℕ → Bool
digits_before ds [] = false
digits_before [] (e ∷ es) = true
digits_before (d ∷ ds) (e ∷ es) = let later = digits_before ds es in ltb d e || ((d == e) && later)

-- The digits of %04d, for a number of four digits or more.
name_digits : ℕ → List ℕ
unfolding digits reversed
name_digits n = reversed (digits (suc n) n) []

-- The order of walFileName n and walFileName m as strings. Up to 9999 both have four digits, and it
-- is the order of the numbers; a number below 1000 has a name that starts with 0.
unfoldable pub name_before : ℕ → ℕ → Bool
unfolding name_digits digits_before
name_before n m =
    if ltb n 10000 && ltb m 10000
    then ltb n m
    else if ltb n 1000
    then true
    else if ltb m 1000
    then false
    else digits_before (name_digits n) (name_digits m)

first_four : ℕ → ℕ → ℕ
first_four zero n = n
first_four (suc fuel) n = let fewer = first_four fuel (n / 10) in if ltb n 10000 then n else fewer

-- parseFileNum of walFileName n: the verb %04d reads four digits.
unfoldable pub parse_file_num : ℕ → ℕ
unfolding first_four
parse_file_num n = first_four n n

-- Opens the file of that number with O_CREATE; the files stand in the order of their names.
unfoldable pub create_file : ℕ → Directory → Directory
unfolding name_before
create_file n [] = record { num = n; lines = [] } ∷ []
create_file n (f ∷ fs) =
    let rest = create_file n fs in
    if f.num == n
    then f ∷ fs
    else if name_before n f.num
    then record { num = n; lines = [] } ∷ f ∷ fs
    else f ∷ rest

-- Text without a newline and what is written behind it. White space before a record does not
-- matter; no other text that is a record, or that is none, makes one with a record behind it.
abbrev pub glue : Content → Content → Content
glue blank c = c
glue spaces c = c
glue (parsed r) c = malformed
glue malformed c = malformed

-- What a line of a record becomes behind the lines of a file.
unfoldable pub add_line : List Line → Line → List Line
add_line [] l = l ∷ []
add_line (k ∷ []) l =
    if k.ended
    then k ∷ l ∷ []
    else record { size = k.size + l.size; content = glue k.content l.content; ended = l.ended } ∷ []
add_line (k ∷ j ∷ ks) l = k ∷ add_line (j ∷ ks) l

-- Writes a line with O_APPEND to the file of that number.
unfoldable pub write_line : ℕ → Line → Directory → Directory
unfolding add_line
write_line n l [] = []
write_line n l (f ∷ fs) =
    let rest = write_line n l fs in
    if f.num == n then record f { lines = add_line f.lines l } ∷ fs else f ∷ rest

-- readWALFile: what the line says is put before what the rest says.
abbrev pub read_line : Line → WalResult (List Record) → WalResult (List Record)
read_line l rest = if ltb max_line_size l.size then err line_too_long else elim l.content [
  | parsed r ↦ map_result (λ rs. r ∷ rs) rest
  | malformed ↦ err malformed_line
  | spaces ↦ err malformed_line
  | blank ↦ rest
]

unfoldable pub read_file : List Line → WalResult (List Record)
read_file [] = ok []
read_file (l ∷ ls) = read_line l (read_file ls)

-- The records of all files; a file that is not read ends the loop.
unfoldable pub read_files : Directory → WalResult (List Record)
unfolding read_file
read_files [] = ok []
read_files (f ∷ fs) =
    let rest = read_files fs in
    and_then (read_file f.lines) λ rs. map_result (λ later. rs ++ later) rest

-- The check of ReadAll, from a given expected number on.
unfoldable pub check_sequence : ℕ → List Record → Option WalError
check_sequence expected [] = none
check_sequence expected (r ∷ rs) =
    let later = check_sequence (suc expected) rs in
    if r.seq == expected then later else some (sequence_gap expected r.seq)

abbrev pub or_records : Option WalError → List Record → WalResult (List Record)
or_records none rs = ok rs
or_records (some e) rs = err e

-- Reader.ReadAll
unfoldable pub read_all : Directory → WalResult (List Record)
unfolding read_files check_sequence
read_all dir = and_then (read_files dir) λ rs. or_records (check_sequence 1 rs) rs
