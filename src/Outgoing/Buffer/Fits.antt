-- ===== src/Outgoing/Buffer/Fits.antt =====
-- Which texts and IDs fit into the buffers that they are printed into.
use Prim.Native.String.{String}
use disco_c.Prelude.{
  ℕ, ◌^◌, ◌≤◌, ◌<◌, ◌≡◌, refl, ◌⊎◌, inl, inr, false, none, some, List, [], ◌∷◌, arith, All, ltb,
  ltb→lt, lt→ltb, Bool-cases,
}
use disco_c.Prelude.Text.{text_length}
use disco_c.Prelude.Decimal.{print_uint, short-print_uint, long-print_uint}
use disco_c.Json.Build.{Value, text, Items, item, add_each}
use disco_c.Outgoing.Buffer.{sprintf, id_text, add_ids}

pub sprintf_fits : (size : ℕ) (s : String) → text_length s < size → sprintf size s ≡ some s
unfolding sprintf
sprintf_fits size s h = rw (lt→ltb (text_length s) size h) refl

pub sprintf_full : (size : ℕ) (s : String) → size ≤ text_length s → sprintf size s ≡ none
unfolding sprintf
sprintf_full size s h = let e : ltb (text_length s) size ≡ false = ground (arith, h) in rw e refl

pub sprintf_short_id : (id : ℕ) → id < 10 ^ 19 → sprintf 20 (print_uint id) ≡ some (print_uint id)
sprintf_short_id id h = sprintf_fits 20 (print_uint id) (omega (arith, short-print_uint id h))

sprintf_long_id : (id : ℕ) → 10 ^ 19 ≤ id → id < 2 ^ 64 → sprintf 20 (print_uint id) ≡ none
sprintf_long_id id l h = sprintf_full 20 (print_uint id) (omega (arith, long-print_uint id l h))

ltb-le : (id : ℕ) → ltb id (10 ^ 19) ≡ false → 10 ^ 19 ≤ id
ltb-le id b = ground (arith, b)

-- An ID of 64 bits, and one of at most 19 digits.
abbrev pub IsId : ℕ → Type 0
IsId id = id < 2 ^ 64

abbrev pub IsShortId : ℕ → Type 0
IsShortId id = id < 10 ^ 19

module _ {R : Type 0} where
  -- The decimal text of an ID.
  abbrev pub shown : ℕ → Value R
  shown id = text (print_uint id)

  pub id_text-short : (id : ℕ) → IsShortId id → id_text {R = R} id ≡ some (shown id)
  unfolding id_text
  id_text-short id h = rw (sprintf_short_id id h) refl

  id_text-long : (id : ℕ) → IsId id → 10 ^ 19 ≤ id → id_text {R = R} id ≡ none
  unfolding id_text
  id_text-long id h l = rw (sprintf_long_id id l h) refl

  pub add_ids-short :
      (ids : List ℕ) (items : Items R)
      → All IsShortId ids
      → add_ids ids items ≡ some (add_each shown ids items)
  unfolding add_ids add_each
  add_ids-short [] items s = refl
  add_ids-short (id ∷ rest) items (s, ss) =
      rw (id_text-short id s, add_ids) (add_ids-short rest (item items (shown id)) ss)

  -- Either all IDs are short, and are all added, or one overruns its buffer.
  pub add_ids-cases :
      (ids : List ℕ) (items : Items R)
      → All IsId ids
      → (All IsShortId ids × (add_ids ids items ≡ some (add_each shown ids items)))
        ⊎ ((¬ All IsShortId ids) × (add_ids ids items ≡ none))
  unfolding add_ids add_each
  add_ids-cases [] items w = inl (tt, refl)
  add_ids-cases (id ∷ rest) items (i, w) = elim (Bool-cases (ltb id (10 ^ 19))) [
    | inl b ↦
        let s = id_text-short id (ltb→lt id (10 ^ 19) b) in
        elim (add_ids-cases rest (item items (shown id)) w) [
          | inl (ss, e) ↦ inl ((ltb→lt id (10 ^ 19) b, ss), rw (s, add_ids) e)
          | inr (n, e) ↦ inr (λ x. n x.1, rw (s, add_ids) e)
        ]
    | inr b ↦
        inr
          (λ x. omega (arith, x.0, ltb-le id b), rw (id_text-long id i (ltb-le id b), add_ids) refl)
  ]
