-- ===== src/Outgoing/RoundTrip/Embed.antt =====
-- src/discord/message.c and src/discord/embed.c: what is read from an embed that was written.
use Prim.Native.String.{String}
use mathlib.Core.Option
use disco_c.Prelude.{
  append_nil, append_snoc, ℕ, suc, ◌≡◌, refl, sym, ap, ◌∙◌, false, Option, none, some, List, [],
  ◌∷◌, ◌++◌, map, arith, length, All, ◌==◌,
}
use disco_c.Prelude.Int.{pos}
use disco_c.Json.{CJson, _d_get_array_from_json, convert_all}
use disco_c.Json.Build.{
  Value, object, Fields, Items, no_items, item, add_each, lookup_field, items_list,
}
use disco_c.Structures.Copies.{Fits}
use disco_c.Structures.Embed.{
  EmbedFooter, EmbedMedia, EmbedAuthor, EmbedField, Embed, _d_json_to_embed_author,
  _d_json_to_embed_media, _d_json_to_embed_provider, _d_json_to_embed_field, array_of, embed_with,
  _d_json_to_embed,
}
use disco_c.Outgoing.Embeds.{footer_object, field_object, embed_fields, create_embed_json}
use disco_c.Outgoing.RoundTrip.{IsTree, read_text, author_round_trip}
use disco_c.Outgoing.RoundTrip.Parts.{
  shown_provider, footer_value, media_value, provider_value, author_value, array_value,
  embed_fields-IsWritten, footer_lookups,
}
use disco_c.Outgoing.RoundTrip.Reading.{
  read_int, media_round_trip, provider_round_trip, field_round_trip, footer_lost,
}

-- A property of the value, if there is one.
abbrev pub ForSome : {A : Type 0} → (A → Type 0) → Option A → Type 0
ForSome P none = Unit
ForSome P (some a) = P a

abbrev pub IsShortAuthor : EmbedAuthor → Type 0
IsShortAuthor a =
    Fits 4097 a.name × Fits 4097 a.url × Fits 4097 a.icon_url × Fits 4097 a.proxy_icon_url

-- An embed whose texts are within the limit of the readers.
pub record IsShortEmbed (e : Embed) : Type 0 where
  pub title : Fits 4097 e.title
  pub type : Fits 4097 e.type
  pub description : Fits 4097 e.description
  pub url : Fits 4097 e.url
  pub timestamp : Fits 4097 e.timestamp
  pub image : ForSome (λ m. Fits 4097 m.url) e.image
  pub thumbnail : ForSome (λ m. Fits 4097 m.url) e.thumbnail
  pub video : ForSome (λ m. Fits 4097 m.url) e.video
  pub provider : ForSome (λ p. Fits 4097 p.name × Fits 4097 p.url) e.provider
  pub author : ForSome IsShortAuthor e.author
  pub fields : All (λ f. Fits 4097 f.name × Fits 4097 f.value) e.fields

abbrev pub shown_media : EmbedMedia → EmbedMedia
shown_media m = record m { proxy_url = m.url }

abbrev pub no_texts : EmbedFooter
no_texts = record { text = none; icon_url = none; proxy_icon_url = none }

-- What is read from an embed that was written.
abbrev pub shown_embed : Embed → Embed
shown_embed e = record e {
  footer = Option.map (λ f. no_texts) e.footer;
  image = Option.map shown_media e.image;
  thumbnail = Option.map shown_media e.thumbnail;
  video = Option.map shown_media e.video;
  provider = Option.map shown_provider e.provider;
}

module _ {R : Type 0} (json : CJson (Value R)) (tree : IsTree json) where
  -- A part that is read as another one.
  read_part :
      {A B : Type 0} (name : String) (fs : Fields R) (o : Option A) (make : A → Value R)
      (convert : Value R → B) (shown : A → B) (P : A → Type 0)
      → ((a : A) → P a → convert (make a) ≡ shown a)
      → lookup_field name fs ≡ Option.map make o
      → ForSome P o
      → Option.map convert (json.get_object_item (object fs) name) ≡ Option.map shown o
  read_part name fs none make convert shown P law e w = rw (tree.item fs name, e) refl
  read_part name fs (some a) make convert shown P law e w =
      rw (tree.item fs name, e) (ap some (law a w))

  items-add_each :
      {A : Type 0} (make : A → Value R) (xs : List A) (items : Items R)
      → items_list (add_each make xs items) ≡ items_list items ++ map make xs
  unfolding add_each items_list
  items-add_each make [] items = sym (append_nil (items_list items))
  items-add_each make (x ∷ xs) items =
      items-add_each make xs (item items (make x))
      ∙ append_snoc (items_list items) (make x) (map make xs)

  map_law :
      {A : Type 0} (make : A → Value R) (convert : Value R → A) (P : A → Type 0) (xs : List A)
      → ((a : A) → P a → convert (make a) ≡ a)
      → All P xs
      → map convert (map make xs) ≡ xs
  map_law make convert P [] law w = refl
  map_law make convert P (x ∷ xs) law (w, ws) = λ j. law x w j ∷ map_law make convert P xs law ws j

  array_of-convert_all :
      {A : Type 0} (convert : Value R → A) (elements : List (Value R))
      → array_of (convert_all json convert elements) ≡ map convert elements
  unfolding array_of convert_all
  array_of-convert_all convert [] = refl
  array_of-convert_all convert (v ∷ elements) =
      let e : (suc (length elements) == 0) ≡ false = ground arith in rw e refl

  read_fields :
      (fs : Fields R) (xs : List EmbedField)
      → lookup_field "fields" fs ≡ array_value (λ f. object (field_object f)) xs
      → All (λ f. Fits 4097 f.name × Fits 4097 f.value) xs
      → array_of (_d_get_array_from_json json (object fs) "fields" (_d_json_to_embed_field json))
        ≡ xs
  unfolding _d_get_array_from_json items_list array_of
  read_fields fs [] e w = rw (tree.item fs "fields", e, _d_get_array_from_json) refl
  read_fields fs (x ∷ xs) e w =
      rw (tree.item fs "fields", e, tree.elements, _d_get_array_from_json)
        (array_of-convert_all (_d_json_to_embed_field json)
            (items_list (add_each (λ f. object (field_object f)) (x ∷ xs) no_items))
          ∙ ap (map (_d_json_to_embed_field json))
              (items-add_each (λ f. object (field_object f)) (x ∷ xs) no_items)
          ∙ map_law (λ f. object (field_object f)) (_d_json_to_embed_field json)
              (λ f. Fits 4097 f.name × Fits 4097 f.value) (x ∷ xs)
              (λ f h. field_round_trip json tree f h.0 h.1) w)

  read_medium :
      (name : String) (fs : Fields R) (o : Option EmbedMedia)
      → lookup_field name fs ≡ Option.map media_value o
      → ForSome (λ m. Fits 4097 m.url) o
      → Option.map (_d_json_to_embed_media json) (json.get_object_item (object fs) name)
        ≡ Option.map shown_media o
  read_medium name fs o e w =
      read_part name fs o media_value (_d_json_to_embed_media json) shown_media
        (λ m. Fits 4097 m.url) (media_round_trip json tree) e w

  map_same : {A : Type 0} (o : Option A) → Option.map (λ a. a) o ≡ o
  map_same none = refl
  map_same (some a) = refl

  read_author :
      (fs : Fields R) (o : Option EmbedAuthor)
      → lookup_field "author" fs ≡ Option.map author_value o
      → ForSome IsShortAuthor o
      → Option.map (_d_json_to_embed_author json) (json.get_object_item (object fs) "author") ≡ o
  read_author fs o e w =
      read_part "author" fs o author_value (_d_json_to_embed_author json) (λ a. a) IsShortAuthor
        (λ a h. author_round_trip json tree a h.0 h.1 h.2 h.3) e w
      ∙ map_same o

  -- An embed but for its footer.
  embed_with_lem :
      (e : Embed) (footer : Option EmbedFooter)
      → IsShortEmbed e
      → embed_with json (create_embed_json e) footer ≡ record (shown_embed e) { footer = footer }
  unfolding embed_with create_embed_json
  embed_with_lem e footer w =
      let fs = embed_fields e in
      let l = embed_fields-IsWritten e in
      λ j. record {
        title = read_text json tree "title" e.title fs l.title w.title j;
        type = read_text json tree "type" e.type fs l.type w.type j;
        description =
            read_text json tree "description" e.description fs l.description w.description j;
        url = read_text json tree "url" e.url fs l.url w.url j;
        timestamp = read_text json tree "timestamp" e.timestamp fs l.timestamp w.timestamp j;
        color = read_int json tree "color" e.color (pos 0) fs l.color j;
        footer = footer;
        image = read_medium "image" fs e.image l.image w.image j;
        thumbnail = read_medium "thumbnail" fs e.thumbnail l.thumbnail w.thumbnail j;
        video = read_medium "video" fs e.video l.video w.video j;
        provider =
            read_part "provider" fs e.provider provider_value (_d_json_to_embed_provider json)
              shown_provider (λ p. Fits 4097 p.name × Fits 4097 p.url)
              (λ p h. provider_round_trip json tree p h.0 h.1) l.provider w.provider j;
        author = read_author fs e.author l.author w.author j;
        fields = read_fields fs e.fields l.fields w.fields j;
      }

  -- The footer is converted as an embed, which has none itself.
  read_footer :
      (fs : Fields R) (fuel : ℕ) (o : Option EmbedFooter)
      → lookup_field "footer" fs ≡ Option.map footer_value o
      → _d_json_to_embed json (suc (suc fuel)) (object fs)
        ≡ some (embed_with json (object fs) (Option.map (λ f. no_texts) o))
  unfolding _d_json_to_embed
  read_footer fs fuel none e = rw (tree.item fs "footer", e, _d_json_to_embed) refl
  read_footer fs fuel (some f) e =
      rw
        (
          tree.item fs "footer",
          e,
          tree.item (footer_object f) "footer",
          (footer_lookups {R = R} f).3,
          _d_json_to_embed,
        )
        (ap (λ footer. some (embed_with json (object fs) (some footer)))
          (footer_lost json tree f none))

  -- Where cJSON gives back what was built, as `IsTree` says, an embed whose texts have 4097
  -- characters at most is read from its JSON as it was, with a fuel of 2 or more, but for three
  -- things: a footer is read without its three texts, each medium has its URL in the place of that
  -- of its proxy, and a provider without a name has no URL.
  pub embed_round_trip :
      (e : Embed) (fuel : ℕ)
      → IsShortEmbed e
      → _d_json_to_embed json (suc (suc fuel)) (create_embed_json e) ≡ some (shown_embed e)
  unfolding create_embed_json
  embed_round_trip e fuel w =
      read_footer (embed_fields e) fuel e.footer (embed_fields-IsWritten e).footer
      ∙ ap some (embed_with_lem e (Option.map (λ f. no_texts) e.footer) w)
