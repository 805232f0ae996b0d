-- ===== src/Outgoing/Buffer.antt =====
-- src/discord/message.c: texts and IDs that are printed into buffers.
pub mod Fits
use Prim.Native.String.{String}
use mathlib.Core.Option
use disco_c.Prelude.{
  ℕ, zero, suc, ◌+◌, ◌-◌, ◌*◌, ◌/◌, ◌%◌, ◌^◌, ◌≤◌, ◌<◌, ◌≡◌, refl, sym, ap, ◌∙◌, subst, ◌≢◌, ◌↔◌,
  ◌⊎◌, inl, inr, Bool, true, false, not, ◌&&◌, ◌||◌, Option, none, some, List, [], ◌∷◌, ◌++◌, map,
  arith, length, length-append, All, ltb, leb, ◌==◌, if◌then◌else◌, ltb→lt, lt→ltb, leb→le, ==_iff,
  Bool-cases, Option-cases,
}
use disco_c.Prelude.Text.{text_length}
use disco_c.Prelude.Decimal.{print_uint}
use disco_c.Json.Build.{Value, text, Items, item}

-- A text in a buffer of so many bytes, none if its end does not fit.
unfoldable pub sprintf : ℕ → String → Option String
sprintf size s = if ltb (text_length s) size then some s else none

module _ {R : Type 0} where
  -- An ID in `tmp`, of 20 bytes.
  unfoldable pub id_text : ℕ → Option (Value R)
  unfolding sprintf print_uint
  id_text id = Option.map text (sprintf 20 (print_uint id))

  -- The loops that add an ID after the other to an array.
  unfoldable pub add_ids : List ℕ → Items R → Option (Items R)
  unfolding id_text
  add_ids [] items = some items
  add_ids (id ∷ rest) items = elim (id_text id) [
    | none ↦ none
    | some v ↦ add_ids rest (item items v)
  ]
