-- ===== src/Cache/Spec.antt =====
-- What the cache promises, without map, nodes and addresses: the IDs with their structures, least
-- recently used first, and at most as many as the limit.
use disco_c.Prelude.{
  ℕ, ◌+◌, Option, none, some, List, [], ◌∷◌, ◌++◌, length, ltb, ◌==◌, if◌then◌else◌,
}
use mathlib.Core.List.{tail}

module _ {D : Type 0} where
  unfoldable pub lookup : ℕ → List (ℕ × D) → Option D
  lookup id [] = none
  lookup id ((j, d) ∷ l) = if j == id then some d else lookup id l

  unfoldable pub without : ℕ → List (ℕ × D) → List (ℕ × D)
  without id [] = []
  without id ((j, d) ∷ l) = if j == id then l else (j, d) ∷ without id l

  unfoldable pub put_last : ℕ → Option D → List (ℕ × D) → List (ℕ × D)
  put_last id none l = l
  put_last id (some d) l = without id l ++ (id, d) ∷ []

  -- A use makes the entry the most recent one.
  unfoldable pub use_entry : ℕ → List (ℕ × D) → List (ℕ × D)
  unfolding put_last
  use_entry id l = put_last id (lookup id l) l

  -- A new entry is the most recent one, and takes the place of the oldest if the limit is reached.
  unfoldable pub add_entry : ℕ → ℕ → D → List (ℕ × D) → List (ℕ × D)
  add_entry limit id d l =
      if ltb limit (length l + 1) then tail (l ++ (id, d) ∷ []) else l ++ (id, d) ∷ []

  oldest_of : List (ℕ × D) → List D
  oldest_of [] = []
  oldest_of ((j, d) ∷ l) = d ∷ []

  -- The structure that has to go for a new entry, if one has to.
  unfoldable pub dropped : ℕ → List (ℕ × D) → List D
  unfolding oldest_of
  dropped limit l = if ltb limit (length l + 1) then oldest_of l else []
