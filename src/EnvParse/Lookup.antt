-- ===== src/EnvParse/Lookup.antt =====
-- Which lines `d_getenv` passes over, where it finds the start of a value, and what it reads there.
use disco_c.Prelude.{
  ℕ, zero, suc, ◌+◌, ◌≤◌, ◌≡◌, refl, ap, ◌∙◌, ◌≢◌, true, false, List, [], ◌∷◌, ◌++◌, arith, length,
  length-append, All,
}
use mathlib.Core.List.{append_assoc}
use disco_c.EnvParse.{
  Scan, newline, equals_sign, max_name, char_at, scan_start, tick, scan_char, scan_file, fseek,
  read_chars,
}
use disco_c.EnvParse.Segments.{IsText, seeking, skip_text, end_line, rule_out, match_chars}

-- With so many characters of the name compared, a line that is empty, or starts with a character that
-- is neither an equals sign nor the next one of the name.
abbrev pub IsForeign : List ℕ → ℕ → List ℕ → Type 0
IsForeign name k [] = Unit
IsForeign name k (c ∷ text) = IsText c × (c ≢ equals_sign) × (c ≢ char_at name k) × All IsText text

-- Lines with the newline behind each.
unfoldable pub unlines : List (List ℕ) → List ℕ
unlines [] = []
unlines (line ∷ lines) = line ++ newline ∷ unlines lines

foreign_line :
    (name line file : List ℕ) (cur k : ℕ)
    → IsForeign name k line
    → scan_file name (line ++ newline ∷ file) (seeking true cur k)
      ≡ scan_file name file (seeking true (cur + (length line + 1)) k)
foreign_line name [] file cur k w = end_line name file true cur k
foreign_line name (c ∷ text) file cur k (t, e, m, ts) =
    rule_out name (text ++ newline ∷ file) c cur k t e m
    ∙ skip_text name text (newline ∷ file) (cur + 1) k ts
    ∙ end_line name file false _ k
    ∙ ap (λ n. scan_file name file (seeking true n k)) (omega arith)

-- No foreign line changes more than the position.
pub foreign_lines :
    (name : List ℕ) (lines : List (List ℕ)) (file : List ℕ) (cur k : ℕ)
    → All (IsForeign name k) lines
    → scan_file name (unlines lines ++ file) (seeking true cur k)
      ≡ scan_file name file (seeking true (cur + length (unlines lines)) k)
unfolding unlines
foreign_lines name [] file cur k w = ap (λ n. scan_file name file (seeking true n k)) (omega arith)
foreign_lines name (line ∷ lines) file cur k (w, ws) =
    rw (append_assoc line (newline ∷ unlines lines) file) (
      foreign_line name line (unlines lines ++ file) cur k w
      ∙ foreign_lines name lines file (cur + (length line + 1)) k ws
      ∙ ap (λ n. scan_file name file (seeking true n k))
          (omega (arith, length-append line (newline ∷ unlines lines))))

pub fseek-append : (xs ys : List ℕ) (n : ℕ) → n ≡ length xs → fseek n (xs ++ ys) ≡ ys
unfolding fseek
fseek-append [] ys zero e = refl
fseek-append [] ys (suc n) e = absurd (omega (arith, e))
fseek-append (x ∷ xs) ys zero e = absurd (omega (arith, e))
fseek-append (x ∷ xs) ys (suc n) e = fseek-append xs ys n (omega (arith, e))

pub read_chars-append : (xs ys : List ℕ) (n : ℕ) → n ≡ length xs → read_chars n (xs ++ ys) ≡ xs
unfolding read_chars
read_chars-append [] ys zero e = refl
read_chars-append [] ys (suc n) e = absurd (omega (arith, e))
read_chars-append (x ∷ xs) ys zero e = absurd (omega (arith, e))
read_chars-append (x ∷ xs) ys (suc n) e = ap (◌∷◌ x) (read_chars-append xs ys n (omega (arith, e)))

-- The equals sign behind a matched prefix: the value starts here.
meet_equals :
    (name file : List ℕ) (cur count : ℕ)
    → scan_file name (equals_sign ∷ file) (seeking true cur count)
      ≡ scan_file name file
          (record (seeking true (cur + 1) count) { found = true; offset = cur + 1 })
unfolding scan_file tick scan_char
meet_equals name file cur count = refl

-- Behind foreign lines and a matched prefix of the name with its equals sign, where the value starts.
abbrev pub IsAtValue : List ℕ → List ℕ → List ℕ → Type 0
IsAtValue name front rest =
    (s : Scan) × (scan_file name (front ++ rest) scan_start ≡ scan_file name rest s)
    × (s.found ≡ true)
    × (s.offset ≡ length front)
    × (s.env_len ≡ 0)

pub reach_value :
    (name key post : List ℕ) (lines : List (List ℕ)) (rest : List ℕ)
    → name ≡ key ++ post
    → length name ≤ max_name
    → All IsText key
    → All (λ c. c ≢ equals_sign) key
    → All (IsForeign name 0) lines
    → IsAtValue name (unlines lines ++ (key ++ equals_sign ∷ [])) rest
unfolding scan_start
reach_value name key post lines rest n b t e w = (
  _,
  ap (λ f. scan_file name f scan_start) reorder
      ∙ foreign_lines name lines (key ++ equals_sign ∷ rest) 0 0 w
      ∙ match_chars name [] key post (equals_sign ∷ rest) _ 0 n refl b t e
      ∙ meet_equals name rest _ _,
  refl,
  omega (
    arith,
    length-append (unlines lines) (key ++ equals_sign ∷ []),
    length-append key (equals_sign ∷ []),
  ),
  refl,
)
  where
    reorder :
        (unlines lines ++ (key ++ equals_sign ∷ [])) ++ rest
        ≡ unlines lines ++ (key ++ equals_sign ∷ rest)
    reorder =
        append_assoc (unlines lines) (key ++ equals_sign ∷ []) rest
        ∙ ap (◌++◌ (unlines lines)) (append_assoc key (equals_sign ∷ []) rest)
