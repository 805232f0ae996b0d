-- ===== src/EnvParse/Outcome.antt =====
-- What `d_getenv` returns for a file of lines.
use disco_c.Prelude.{
  ℕ, ◌+◌, ◌-◌, ◌≤◌, ◌≡◌, refl, sym, ap, ◌∙◌, ◌≢◌, true, false, some, List, [], ◌∷◌, ◌++◌, arith,
  length, length-append, All,
}
use mathlib.Core.List.{append_assoc, append-nil}
use disco_c.EnvParse.{
  Scan, null, value, newline, equals_sign, max_name, char_at, scan_start, scan_file, read_value,
  d_getenv,
}
use disco_c.EnvParse.Segments.{
  IsText, seeking, skip_text, end_line, rule_out, match_chars, char_at-append, count_value,
  end_value,
}
use disco_c.EnvParse.Lookup.{
  IsForeign, unlines, foreign_lines, fseek-append, read_chars-append, reach_value,
}

scanned :
    (name front text rest : List ℕ) (s : Scan)
    → scan_file name (front ++ (text ++ rest)) scan_start ≡ s
    → s.offset ≡ length front
    → s.env_len ≡ length text + 1
    → d_getenv (some (front ++ (text ++ rest))) name ≡ value text
unfolding d_getenv read_value
scanned name front text rest s e o n =
    rw
      (
        e,
        fseek-append front (text ++ rest) s.offset o,
        read_chars-append text rest (s.env_len - 1) (omega (arith, n)),
      )
      (ground (arith, n))

-- In a file in which every line before is empty or starts with a character that is neither the
-- first one of the name nor an equals sign, the line of the name gives its value, and so does a
-- line with a mere prefix of the name in the place of the name: `name` is `key` with something
-- behind it, or `key` itself. The name has at most 1000 characters, the key no equals sign, and
-- neither the key nor the value nor a line before a newline or a byte 255.
pub d_getenv_value :
    (name key post : List ℕ) (lines : List (List ℕ)) (text rest : List ℕ)
    → name ≡ key ++ post
    → length name ≤ max_name
    → All IsText key
    → All (λ c. c ≢ equals_sign) key
    → All (IsForeign name 0) lines
    → All IsText text
    → d_getenv
        (some ((unlines lines ++ (key ++ equals_sign ∷ [])) ++ (text ++ newline ∷ rest)))
        name
      ≡ value text
d_getenv_value name key post lines text rest n b t e w v =
    let front = unlines lines ++ (key ++ equals_sign ∷ []) in
    let (s, p, f, o, z) = reach_value name key post lines (text ++ newline ∷ rest) n b t e w in
    let (s', p', c) = count_value name text (newline ∷ rest) s v f in
    let c' = end_value name rest s' c.found in
    scanned name front text (newline ∷ rest) (scan_file name (newline ∷ rest) s') (p ∙ p')
      (c'.offset ∙ c.offset ∙ o) (omega (arith, z, c.env_len, c'.env_len))

-- If the line of the name is the last one and no newline ends it, and every line before is empty
-- or starts with a character that is neither the first one of the name nor an equals sign, the
-- value lacks its last character. The name has at most 1000 characters and no equals sign, and
-- neither the name nor the value nor a line before has a newline or a byte 255.
d_getenv_last_line :
    (name : List ℕ) (lines : List (List ℕ)) (text : List ℕ) (last : ℕ)
    → length name ≤ max_name
    → All IsText name
    → All (λ c. c ≢ equals_sign) name
    → All (IsForeign name 0) lines
    → All IsText (text ++ last ∷ [])
    → d_getenv (some ((unlines lines ++ (name ++ equals_sign ∷ [])) ++ (text ++ last ∷ []))) name
      ≡ value text
unfolding scan_file
d_getenv_last_line name lines text last b t e w v =
    let front = unlines lines ++ (name ++ equals_sign ∷ []) in
    let (s, p, f, o, z) =
      reach_value name name [] lines (text ++ last ∷ []) (sym (append-nil name)) b t e w in
    let (s', p', c) = count_value name (text ++ last ∷ []) [] s v f in
    scanned name front text (last ∷ []) s' (p ∙ (rw (append-nil (text ++ last ∷ [])) at p'))
      (c.offset ∙ o) (omega (arith, z, c.env_len, length-append text (last ∷ [])))

scan_end : (name : List ℕ) (s : Scan) → scan_file name [] s ≡ s
unfolding scan_file
scan_end name s = refl

foreign_file :
    (name : List ℕ) (lines : List (List ℕ)) (cur k : ℕ)
    → All (IsForeign name k) lines
    → scan_file name (unlines lines) (seeking true cur k)
      ≡ seeking true (cur + length (unlines lines)) k
foreign_file name lines cur k w =
    ap (λ f. scan_file name f (seeking true cur k)) (sym (append-nil (unlines lines)))
    ∙ foreign_lines name lines [] cur k w
    ∙ scan_end name _

-- If every line is empty or starts with a character that is neither the first one of the name nor
-- an equals sign, and no line has a byte 255, the name is not found.
d_getenv_null :
    (name : List ℕ) (lines : List (List ℕ))
    → All (IsForeign name 0) lines
    → d_getenv (some (unlines lines)) name ≡ null
unfolding d_getenv scan_start scan_file read_value
d_getenv_null name lines w =
    rw (sym (append-nil (unlines lines)), foreign_lines name lines [] 0 0 w) refl

-- A line that shares characters with the name but not all of them hides the line of the name
-- behind it: the comparison goes on where that line left it, and nothing is found if every line
-- behind it is empty or starts with a character that is neither an equals sign nor the one that
-- the name has there. The name has at most 1000 characters, no line has a byte 255, the line has
-- no equals sign up to the first character that differs, and the lines before are empty or start
-- with another character than the name, and not with an equals sign.
pub d_getenv_hidden :
    (name key post : List ℕ) (other : ℕ) (lines : List (List ℕ)) (c : ℕ) (text : List ℕ)
    (behind : List (List ℕ))
    → name ≡ key ++ other ∷ post
    → length name ≤ max_name
    → All IsText key
    → All (λ d. d ≢ equals_sign) key
    → All (IsForeign name 0) lines
    → All IsText (c ∷ text)
    → c ≢ equals_sign
    → c ≢ other
    → All (IsForeign name (length key)) behind
    → d_getenv (some (unlines lines ++ ((key ++ c ∷ text) ++ newline ∷ unlines behind))) name ≡ null
unfolding d_getenv scan_start read_value
d_getenv_hidden name key post other lines c text behind n b t e w (ct, ts) ne differs wb =
    let tail = newline ∷ unlines behind in
    let wrong : c ≢ char_at name (length key) =
      λ q. differs (q ∙ ap (λ m. char_at m (length key)) n ∙ char_at-append key other post) in
    let passed =
      ap (λ f. scan_file name (unlines lines ++ f) scan_start) (append_assoc key (c ∷ text) tail)
      ∙ foreign_lines name lines (key ++ (c ∷ text ++ tail)) 0 0 w
      ∙ match_chars name [] key (other ∷ post) (c ∷ text ++ tail) _ 0 n refl b t e
      ∙ ap
          (λ m.
            scan_file name (c ∷ text ++ tail)
              (seeking true (0 + length (unlines lines) + length key) m))
          (omega arith)
      ∙ rule_out name (text ++ tail) c _ (length key) ct ne wrong
      ∙ skip_text name text tail _ (length key) ts
      ∙ end_line name (unlines behind) false _ (length key)
      ∙ foreign_file name behind _ (length key) wb in
    rw passed refl
