-- ===== src/Request/Delivery.antt =====
-- What the user's function is given of an answer with several messages.
use disco_c.Prelude.{
  ℕ, ◌+◌, ◌≤◌, ◌<◌, ◌≡◌, refl, ◌∙◌, ◌⊎◌, inl, inr, true, none, some, List, [], ◌∷◌, ◌++◌, map,
  arith, length, length-append, ltb, ltb→lt, lt→ltb, Bool-cases, Option-cases,
}
use mathlib.Core.Option
use disco_c.Json.{CJson}
use disco_c.Cache.Defs.{HashMap, Node}
use disco_c.Cache.Global.{DiscoCacheType, disco_message_cache, Caches, discord_cache_set}
use disco_c.Event.Dispatch.{Structs}
use disco_c.Request.{multiple_message_callback, messages, store_message, receive_messages, deliver}

none_or_more {ℓ} : {A : Type ℓ} (xs : List A) → (xs ≡ []) ⊎ (0 < length xs)
none_or_more [] = inl refl
none_or_more (x ∷ xs) = inr (omega arith)

store_fits :
    {D : Type 0} (capacity : ℕ) (msg : D) (message_array : List D)
    → length message_array < capacity
    → store_message capacity msg message_array ≡ some (message_array ++ msg ∷ [])
unfolding store_message
store_fits capacity msg message_array b = rw (lt→ltb _ _ b) refl

module _ {J D U : Type 0} (json : CJson J) (structs : Structs J D U) (h : HashMap (Node D))
    (id_of : DiscoCacheType → D → ℕ) where
  receive_messages_overrun :
      (capacity : ℕ) (elements : List J) (message_array : List D) (cs : Caches h)
      → length message_array ≤ capacity
      → capacity < length message_array + length elements
      → receive_messages json structs h id_of capacity elements message_array cs ≡ none
  unfolding receive_messages
  receive_messages_overrun capacity [] message_array cs b o = absurd (omega (arith, b, o))
  receive_messages_overrun capacity (c_message ∷ rest) message_array cs b o =
      let msg = structs.json_to_message c_message in
      elim (Bool-cases (ltb (length message_array) capacity)) [
        | inl e ↦
            let later : (cs' : Caches h)
                → receive_messages json structs h id_of capacity rest (message_array ++ msg ∷ [])
                    cs'
                  ≡ none =
              λ cs'.
                receive_messages_overrun capacity rest (message_array ++ msg ∷ []) cs'
                  (omega (arith, ltb→lt _ _ e, length-append message_array (msg ∷ [])))
                  (omega (arith, o, length-append message_array (msg ∷ []))) in
            elim (Option-cases (discord_cache_set h id_of disco_message_cache msg cs)) [
              | inl n ↦
                  rw (store_fits capacity msg message_array (ltb→lt _ _ e), n, receive_messages)
                    refl
              | inr ((cs', d), q) ↦
                  rw
                    (
                      store_fits capacity msg message_array (ltb→lt _ _ e),
                      q,
                      later cs',
                      receive_messages,
                    )
                    refl
            ]
        | inr e ↦ rw (e, store_message, receive_messages) refl
      ]

  deliver_array :
      (array : J) (cs : Caches h)
      → json.is_array array ≡ true
      → deliver json structs h id_of (some multiple_message_callback) (some array) cs
        ≡ Option.map
            (λ r. (r.0, messages (length r.1) r.1))
            (receive_messages json structs h id_of 0 (json.elements array) [] cs)
  unfolding deliver
  deliver_array array cs a = rw a refl

  -- The answer to a request for several messages, whatever the caches hold: an empty array is given to the user's function as no messages, and of any other array
  -- the first message is stored outside of the memory that was asked for.
  pub deliver_overruns :
      (array : J) (cs : Caches h)
      → json.is_array array ≡ true
      → let r = deliver json structs h id_of (some multiple_message_callback) (some array) cs in
        ((json.elements array ≡ []) × (r ≡ some (cs, messages 0 [])))
        ⊎ ((0 < length (json.elements array)) × (r ≡ none))
  unfolding receive_messages
  deliver_overruns array cs a = elim (none_or_more (json.elements array)) [
    | inl e ↦ inl (e, deliver_array array cs a ∙ rw (e, receive_messages) refl)
    | inr b ↦ inr (
      b,
      deliver_array array cs a
          ∙ rw
              (receive_messages_overrun 0 (json.elements array) [] cs (omega arith)
                (omega (arith, b)))
              refl,
    )
  ]
