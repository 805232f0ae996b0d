-- ===== src/EnvParse/Segments.antt =====
-- What `d_getenv` makes of a part of a line: a prefix of the name, the rest of a line that cannot be the
-- right one, a value.
use disco_c.Prelude.{
  ℕ, zero, suc, ◌+◌, ◌≤◌, ◌<◌, ◌≡◌, refl, sym, ap, ◌∙◌, ◌≢◌, Bool, true, false, List, [], ◌∷◌, ◌++◌,
  arith, length, length-append, All,
}
use mathlib.Core.List.{append_assoc}
use disco_c.EnvParse.{
  Scan, newline, equals_sign, eof_byte, max_name, char_at, strnlen, tick, scan_char, scan_file,
}

-- A character that can stand within a line.
abbrev pub IsText : ℕ → Type 0
IsText c = (c ≢ newline) × (c ≢ eof_byte)

-- Before the name has been found: at this character, with so much of the name compared.
abbrev pub seeking : Bool → ℕ → ℕ → Scan
seeking val cur count = record {
  val = val;
  found = false;
  offset = 0;
  cur = cur;
  count = count;
  env_len = 0;
}

skip_char :
    (name file : List ℕ) (c cur count : ℕ)
    → IsText c
    → scan_file name (c ∷ file) (seeking false cur count)
      ≡ scan_file name file (seeking false (cur + 1) count)
unfolding scan_file scan_char tick
skip_char name file c cur count t = ground arith

-- The rest of a line that cannot be the right one is passed over.
pub skip_text :
    (name text file : List ℕ) (cur count : ℕ)
    → All IsText text
    → scan_file name (text ++ file) (seeking false cur count)
      ≡ scan_file name file (seeking false (cur + length text) count)
skip_text name [] file cur count t =
    ap (λ n. scan_file name file (seeking false n count)) (omega arith)
skip_text name (c ∷ text) file cur count (t, ts) =
    skip_char name (text ++ file) c cur count t
    ∙ skip_text name text file (cur + 1) count ts
    ∙ ap (λ n. scan_file name file (seeking false n count)) (omega arith)

pub end_line :
    (name file : List ℕ) (val : Bool) (cur count : ℕ)
    → scan_file name (newline ∷ file) (seeking val cur count)
      ≡ scan_file name file (seeking true (cur + 1) count)
unfolding scan_file tick
end_line name file val cur count = refl

-- A character that is neither the next one of the name nor an equals sign rules the line out.
pub rule_out :
    (name file : List ℕ) (c cur count : ℕ)
    → IsText c
    → c ≢ equals_sign
    → c ≢ char_at name count
    → scan_file name (c ∷ file) (seeking true cur count)
      ≡ scan_file name file (seeking false (cur + 1) count)
unfolding scan_file scan_char tick
rule_out name file c cur count t e n = ground arith

match_char :
    (name file : List ℕ) (c cur count : ℕ)
    → IsText c
    → c ≢ equals_sign
    → c ≡ char_at name count
    → count < strnlen name max_name
    → scan_file name (c ∷ file) (seeking true cur count)
      ≡ scan_file name file (seeking true (cur + 1) (count + 1))
unfolding scan_file scan_char tick
match_char name file c cur count t e m b = ground arith

pub char_at-append : (xs : List ℕ) (c : ℕ) (ys : List ℕ) → char_at (xs ++ c ∷ ys) (length xs) ≡ c
unfolding char_at
char_at-append [] c ys = refl
char_at-append (x ∷ xs) c ys = char_at-append xs c ys

strnlen_lem : (name : List ℕ) (m : ℕ) → length name ≤ m → strnlen name m ≡ length name
unfolding strnlen
strnlen_lem [] zero h = refl
strnlen_lem [] (suc m) h = refl
strnlen_lem (c ∷ name) zero h = absurd (omega (arith, h))
strnlen_lem (c ∷ name) (suc m) h = ap suc (strnlen_lem name m (omega (arith, h)))

seeking_same : (val : Bool) (a b c d : ℕ) → a ≡ b → c ≡ d → seeking val a c ≡ seeking val b d
seeking_same val a b c d p q = rw (p, q) refl

-- So many characters of the name match.
pub match_chars :
    (name pre text post file : List ℕ) (cur count : ℕ)
    → name ≡ pre ++ (text ++ post)
    → count ≡ length pre
    → length name ≤ max_name
    → All IsText text
    → All (λ c. c ≢ equals_sign) text
    → scan_file name (text ++ file) (seeking true cur count)
      ≡ scan_file name file (seeking true (cur + length text) (count + length text))
match_chars name pre [] post file cur count n k b t e =
    ap (scan_file name file) (seeking_same true _ _ _ _ (omega arith) (omega arith))
match_chars name pre (c ∷ text) post file cur count n k b (t, ts) (e, es) =
    match_char name (text ++ file) c cur count t e
      (rw (n, k) (sym (char_at-append pre c (text ++ post))))
      (omega (
        arith,
        b,
        k,
        strnlen_lem name max_name b,
        ap length n,
        length-append pre (c ∷ text ++ post),
      ))
    ∙ match_chars name (pre ++ c ∷ []) text post file (cur + 1) (count + 1)
        (n ∙ sym (append_assoc pre (c ∷ []) (text ++ post)))
        (omega (arith, k, length-append pre (c ∷ []))) b ts es
    ∙ ap (scan_file name file) (seeking_same true _ _ _ _ (omega arith) (omega arith))

-- A state in which so many more characters of the value have been counted.
pub record IsCounted (s : Scan) (n : ℕ) (s' : Scan) : Type 0 where
  pub found : s'.found ≡ true
  pub offset : s'.offset ≡ s.offset
  pub env_len : s'.env_len ≡ s.env_len + n

value_char :
    (name : List ℕ) (c : ℕ) (s : Scan) → s.found ≡ true → IsCounted s 1 (scan_char name c (tick s))
unfolding scan_char tick
value_char name c s f = record {
  found = ground (arith, f);
  offset = ground (arith, f);
  env_len = ground (arith, f);
}

next_char :
    (name file : List ℕ) (c : ℕ) (s : Scan)
    → IsText c
    → scan_file name (c ∷ file) s ≡ scan_file name file (scan_char name c (tick s))
unfolding scan_file
next_char name file c s t = ground arith

-- Every character of the value is counted.
pub count_value :
    (name text file : List ℕ) (s : Scan)
    → All IsText text
    → s.found ≡ true
    → (s' : Scan) × (scan_file name (text ++ file) s ≡ scan_file name file s')
      × IsCounted s (length text) s'
count_value name [] file s t f =
    (s, refl, record { found = f; offset = refl; env_len = omega arith })
count_value name (c ∷ text) file s (t, ts) f =
    let v = value_char name c s f in
    let (s', e, w) = count_value name text file (scan_char name c (tick s)) ts v.found in
    (
      s',
      next_char name (text ++ file) c s t ∙ e,
      record {
        found = w.found;
        offset = w.offset ∙ v.offset;
        env_len = omega (arith, w.env_len, v.env_len);
      },
    )

-- The newline behind the value is counted, and ends the loop.
pub end_value :
    (name file : List ℕ) (s : Scan)
    → s.found ≡ true
    → IsCounted s 1 (scan_file name (newline ∷ file) s)
unfolding scan_file tick
end_value name file s f = record {
  found = ground (arith, f);
  offset = ground (arith, f);
  env_len = ground (arith, f);
}
