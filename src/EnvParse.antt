-- ===== src/EnvParse.antt =====
-- src/utils/env_parse.c: looking up a variable in a file with a line NAME=value for each one. A file is
-- the list of its bytes, a name the list of its characters without the terminating zero.
pub mod Segments
pub mod Lookup
pub mod Outcome
mod Tests
use disco_c.Prelude.{
  ℕ, zero, suc, ◌+◌, ◌-◌, ◌*◌, ◌/◌, ◌%◌, ◌^◌, ◌≤◌, ◌<◌, ◌≡◌, refl, sym, ap, ◌∙◌, subst, ◌≢◌, ◌↔◌,
  ◌⊎◌, inl, inr, Bool, true, false, not, ◌&&◌, ◌||◌, Option, none, some, List, [], ◌∷◌, ◌++◌, map,
  arith, length, length-append, All, ltb, leb, ◌==◌, if◌then◌else◌, ltb→lt, lt→ltb, leb→le, ==_iff,
  Bool-cases, Option-cases,
}

-- Where `d_getenv` stands in the file.
pub record Scan : Type 0 where
  -- The line can still be that of the name.
  pub val : Bool
  -- The name has been found, and its value is being counted.
  pub found : Bool
  pub offset : ℕ
  pub cur : ℕ
  pub count : ℕ
  pub env_len : ℕ

-- `exits` ends the program; `null` is NULL.
pub data Getenv : Type 0 where
  exits : Getenv
  null : Getenv
  value : List ℕ → Getenv

abbrev pub newline : ℕ
newline = 10

abbrev pub equals_sign : ℕ
equals_sign = 61

-- The byte that is EOF once it is stored in a signed char.
abbrev pub eof_byte : ℕ
eof_byte = 255

-- A name is read up to this length.
abbrev pub max_name : ℕ
max_name = 1000

-- `name[count]`, which is the terminating zero behind the last character.
unfoldable pub char_at : List ℕ → ℕ → ℕ
char_at [] i = 0
char_at (c ∷ name) zero = c
char_at (c ∷ name) (suc i) = char_at name i

unfoldable pub strnlen : List ℕ → ℕ → ℕ
strnlen name zero = 0
strnlen [] (suc m) = 0
strnlen (c ∷ name) (suc m) = suc (strnlen name m)

unfoldable pub scan_start : Scan
scan_start = record { val = true; found = false; offset = 0; cur = 0; count = 0; env_len = 0 }

-- Every character counts as read, and as part of the value once the name has been found.
unfoldable pub tick : Scan → Scan
tick s = record s { cur = s.cur + 1; env_len = if s.found then s.env_len + 1 else s.env_len }

-- What a character other than a newline does.
unfoldable pub scan_char : List ℕ → ℕ → Scan → Scan
unfolding char_at strnlen
scan_char name c s =
    if not s.found && s.val && (c == equals_sign)
    then record s { found = true; offset = s.cur }
    else (if s.val
        then (if ltb s.count (strnlen name max_name) && (c == char_at name s.count)
            then record s { count = s.count + 1 }
            else record s { val = false })
        else s)

-- The loop over the rest of the file.
unfoldable pub scan_file : List ℕ → List ℕ → Scan → Scan
unfolding tick scan_char
scan_file name [] s = s
scan_file name (c ∷ file) s =
    let after_line = scan_file name file (record (tick s) { val = true }) in
    let after_char = scan_file name file (scan_char name c (tick s)) in
    if c == eof_byte
    then s
    else (if c == newline
        then (if s.found then record (tick s) { val = true } else after_line)
        else after_char)

-- `fseek` from the start of the file.
unfoldable pub fseek : ℕ → List ℕ → List ℕ
fseek zero file = file
fseek (suc n) [] = []
fseek (suc n) (c ∷ file) = fseek n file

-- The characters that `fgetc` gives one after the other, EOF at the end of the file.
unfoldable pub read_chars : ℕ → List ℕ → List ℕ
read_chars zero file = []
read_chars (suc n) [] = eof_byte ∷ read_chars n []
read_chars (suc n) (c ∷ file) = c ∷ read_chars n file

unfoldable pub read_value : List ℕ → Scan → Getenv
unfolding fseek read_chars
read_value file s =
    if s.env_len == 0 then null else value (read_chars (s.env_len - 1) (fseek s.offset file))

-- `none` is a file that cannot be opened.
unfoldable pub d_getenv : Option (List ℕ) → List ℕ → Getenv
unfolding scan_file scan_start read_value
d_getenv none name = exits
d_getenv (some file) name = read_value file (scan_file name file scan_start)
