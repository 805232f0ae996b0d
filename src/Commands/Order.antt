-- ===== src/Commands/Order.antt =====
-- src/discord/command.c: the order of options, those that are required first.
use disco_c.Prelude.{
  append_snoc, append_nil, ℕ, zero, suc, ◌+◌, ◌≡◌, refl, inl, inr, Bool, true, false, not, Option,
  none, some, List, [], ◌∷◌, ◌++◌, map, arith, length, length-append, if◌then◌else◌, Bool-cases,
}

module _ {ℓ} {A : Type ℓ} where
  -- `array[i] = x`; none past the end of the array.
  unfoldable pub assign : ℕ → A → List (Option A) → Option (List (Option A))
  assign i x [] = none
  assign zero x (slot ∷ slots) = some (some x ∷ slots)
  assign (suc i) x (slot ∷ slots) =
      let rest = assign i x slots in elim rest [ none ↦ none | some slots' ↦ some (slot ∷ slots') ]

  -- The loop that stores the options for which the test holds, from the place `cur` on.
  unfoldable pub place : (A → Bool) → List A → ℕ → List (Option A) → Option (ℕ × List (Option A))
  unfolding assign
  place test [] cur slots = some (cur, slots)
  place test (x ∷ options) cur slots = elim (test x) [
    | true ↦ elim (assign cur x slots) [
      | none ↦ none
      | some slots' ↦ place test options (suc cur) slots'
    ]
    | false ↦ place test options cur slots
  ]

  -- An array that nothing has been stored in.
  unfoldable pub blanks : ℕ → List (Option A)
  blanks zero = []
  blanks (suc n) = none ∷ blanks n

  -- The loop that reads the array; none if a place has nothing in it.
  unfoldable pub read_all : List (Option A) → Option (List A)
  read_all [] = some []
  read_all (none ∷ slots) = none
  read_all (some x ∷ slots) =
      let rest = read_all slots in elim rest [ none ↦ none | some xs ↦ some (x ∷ xs) ]

  unfoldable pub ordered_options : (A → Bool) → List A → Option (List A)
  unfolding place blanks read_all
  ordered_options required options = elim (place required options 0 (blanks (length options))) [
    | none ↦ none
    | some (cur, slots) ↦ elim (place (λ x. not (required x)) options cur slots) [
      | none ↦ none
      | some (_, slots') ↦ read_all slots'
    ]
  ]

  -- The elements for which a test holds.
  abbrev pub filter : (A → Bool) → List A → List A
  filter test [] = []
  filter test (x ∷ xs) = let rest = filter test xs in if test x then x ∷ rest else rest

  assign_next :
      (done : List A) (x : A) (n : ℕ)
      → assign (length done) x (map some done ++ blanks (suc n))
        ≡ some (map some (done ++ x ∷ []) ++ blanks n)
  unfolding assign blanks
  assign_next [] x n = refl
  assign_next (y ∷ done) x n = rw (assign_next done x n, assign) refl

  length-snoc : (done : List A) (x : A) → length (done ++ x ∷ []) ≡ suc (length done)
  length-snoc done x = omega (arith, length-append done (x ∷ []))

  -- An option for which the test holds takes the next place.
  place_first :
      (test : A → Bool) (x : A) (options done rest : List A) (k m : ℕ)
      → test x ≡ true
      → place test options (length (done ++ x ∷ [])) (map some (done ++ x ∷ []) ++ blanks k)
        ≡ some (length ((done ++ x ∷ []) ++ rest), map some ((done ++ x ∷ []) ++ rest) ++ blanks m)
      → place test (x ∷ options) (length done) (map some done ++ blanks (suc k))
        ≡ some (length (done ++ x ∷ rest), map some (done ++ x ∷ rest) ++ blanks m)
  unfolding place
  place_first test x options done rest k m t h =
      rw (t, assign_next done x k, place) (rw (length-snoc done x, append_snoc done x rest) at h)

  -- With room for them, the elements are stored behind those that are there.
  place_lem :
      (test : A → Bool) (options done : List A) (k m : ℕ)
      → k ≡ length (filter test options) + m
      → place test options (length done) (map some done ++ blanks k)
        ≡ some (
          length (done ++ filter test options),
          map some (done ++ filter test options) ++ blanks m,
        )
  unfolding place
  place_lem test [] done k m e =
      let same_room : k ≡ m = omega (arith, e) in rw (same_room, append_nil done) refl
  place_lem test (x ∷ options) done zero m e = elim (Bool-cases (test x)) [
    | inl t ↦ absurd (omega (arith, (rw t at e)))
    | inr t ↦ rw (t, place) (place_lem test options done zero m (rw t at e))
  ]
  place_lem test (x ∷ options) done (suc k) m e = elim (Bool-cases (test x)) [
    | inl t ↦ rw t (
        place_first test x options done (filter test options) k m t
          (place_lem test options (done ++ x ∷ []) k m (omega (arith, (rw t at e)))))
    | inr t ↦ rw (t, place) (place_lem test options done (suc k) m (rw t at e))
  ]

  read_all_lem : (xs : List A) → read_all (map some xs ++ []) ≡ some xs
  unfolding read_all
  read_all_lem [] = refl
  read_all_lem (x ∷ xs) = rw (read_all_lem xs, read_all) refl

  length-filter :
      (test : A → Bool) (xs : List A)
      → length xs ≡ length (filter test xs) + (length (filter (λ x. not (test x)) xs) + 0)
  length-filter test [] = refl
  length-filter test (x ∷ xs) = elim (Bool-cases (test x)) [
    | inl e ↦ rw e (omega (arith, length-filter test xs))
    | inr e ↦ rw e (omega (arith, length-filter test xs))
  ]

  -- The two loops assign all options within the array and leave no place of it empty: they give the required
  -- options and then the others, each in the order in which they were.
  pub ordered_options_lem :
      (required : A → Bool) (options : List A)
      → ordered_options required options
        ≡ some (filter required options ++ filter (λ x. not (required x)) options)
  unfolding ordered_options blanks
  ordered_options_lem required options =
      let firsts = filter required options in
      let others = filter (λ x. not (required x)) options in
      let room = length others + 0 in
      let first =
        place_lem required options [] (length options) room (length-filter required options) in
      let second = place_lem (λ x. not (required x)) options firsts room 0 refl in
      rw (first, second, read_all_lem (firsts ++ others), ordered_options) refl
