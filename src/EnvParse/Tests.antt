-- ===== src/EnvParse/Tests.antt =====
-- The theorems about the file of variables at concrete files, and runs of the lookup.
use disco_c.Prelude.{ℕ, ◌≡◌, refl, some, List, [], ◌∷◌, ◌++◌, arith}
use disco_c.EnvParse.{null, value, newline, equals_sign, char_at, scan_start, read_value, d_getenv}
use disco_c.EnvParse.Lookup.{IsForeign, unlines}
use disco_c.EnvParse.Outcome.{d_getenv_value, d_getenv_hidden}

-- TOK, TO, and the line A=1.
abbrev tok : List ℕ
tok = 84 ∷ 79 ∷ 75 ∷ []

abbrev a_line : List ℕ
a_line = 65 ∷ 61 ∷ 49 ∷ []

a_line-IsForeign : IsForeign tok 0 a_line
unfolding char_at
a_line-IsForeign = ground arith

d_getenv_value_example :
    d_getenv
      (some
        ((unlines (a_line ∷ []) ++ (tok ++ equals_sign ∷ [])) ++ (120 ∷ 61 ∷ [] ++ newline ∷ [])))
      tok
    ≡ value (120 ∷ 61 ∷ [])
d_getenv_value_example =
    d_getenv_value tok tok [] (a_line ∷ []) (120 ∷ 61 ∷ []) [] refl (omega arith) (ground arith)
      (ground arith) (a_line-IsForeign, tt) (ground arith)

-- The line TO=x is taken for that of TOK.
prefix_taken : d_getenv (some (84 ∷ 79 ∷ 61 ∷ 120 ∷ 10 ∷ [])) tok ≡ value (120 ∷ [])
unfolding d_getenv scan_start read_value
prefix_taken = refl

-- The line TA=1 hides TOK=x.
tok_line-IsForeign : IsForeign tok 1 (84 ∷ 79 ∷ 75 ∷ 61 ∷ 120 ∷ [])
unfolding char_at
tok_line-IsForeign = ground arith

d_getenv_hidden_example :
    d_getenv
      (some (
        unlines (a_line ∷ [])
        ++ ((84 ∷ [] ++ 65 ∷ 61 ∷ 49 ∷ [])
            ++ newline ∷ unlines ((84 ∷ 79 ∷ 75 ∷ 61 ∷ 120 ∷ []) ∷ []))))
      tok
    ≡ null
d_getenv_hidden_example =
    d_getenv_hidden tok (84 ∷ []) (75 ∷ []) 79 (a_line ∷ []) 65 (61 ∷ 49 ∷ [])
      ((84 ∷ 79 ∷ 75 ∷ 61 ∷ 120 ∷ []) ∷ []) refl (omega arith) (ground arith) (ground arith)
      (a_line-IsForeign, tt) (ground arith) (ground arith) (ground arith) (tok_line-IsForeign, tt)
