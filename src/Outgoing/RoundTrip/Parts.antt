-- ===== src/Outgoing/RoundTrip/Parts.antt =====
-- src/discord/message.c: what is found under the names of an embed that was written and of its parts.
use Prim.Native.String.{String}
use mathlib.Core.Option
use disco_c.Prelude.{
  ◌≡◌, refl, sym, inl, inr, Bool, Option, none, some, List, [], ◌∷◌, if◌then◌else◌, Bool-cases,
}
use disco_c.Json.Build.{
  Value, text, number, boolean, object, array, Fields, no_items, field, add_if, add_array, add_each,
  or_else, lookup_field, same_ignoring_case,
}
use disco_c.Structures.Embed.{
  EmbedFooter, EmbedMedia, EmbedProvider, EmbedAuthor, EmbedField, Embed,
}
use disco_c.Outgoing.Embeds.{
  footer_object, media_object, author_object, field_object, provider_object, embed_add_footer,
  embed_add_media, embed_add_author, embed_add_provider, embed_fields,
}
use disco_c.Outgoing.RoundTrip.{or_else-none, lookup-add_text}

-- A provider without a name loses its URL.
abbrev pub shown_url : Option String → Option String → Option String
shown_url none url = none
shown_url (some name) url = url

abbrev pub shown_provider : EmbedProvider → EmbedProvider
shown_provider p = record p { url = shown_url p.name p.url }

module _ {R : Type 0} where
  -- What is found under a name of what was added under the same or another one.
  abbrev found : {A : Type 0} → Bool → (A → Value R) → Option A → Option (Value R)
  found here make o = if here then Option.map make o else none

  abbrev pub footer_value : EmbedFooter → Value R
  footer_value f = object (footer_object f)

  abbrev pub media_value : EmbedMedia → Value R
  media_value m = object (media_object m)

  abbrev pub provider_value : EmbedProvider → Value R
  provider_value p = object (provider_object p)

  abbrev pub author_value : EmbedAuthor → Value R
  author_value a = object (author_object a)

  lookup-add_if :
      {A : Type 0} (name key : String) (o : Option A) (make : A → Value R) (fs : Fields R)
      → lookup_field name (add_if o (λ a fs'. field fs' key (make a)) fs)
        ≡ or_else (lookup_field name fs) (found (same_ignoring_case key name) make o)
  unfolding add_if lookup_field
  lookup-add_if name key none make fs = elim (Bool-cases (same_ignoring_case key name)) [
    | inl e ↦ rw e (sym (or_else-none (lookup_field name fs)))
    | inr e ↦ rw e (sym (or_else-none (lookup_field name fs)))
  ]
  lookup-add_if name key (some a) make fs = refl

  lookup-add_footer :
      (name : String) (o : Option EmbedFooter) (fs : Fields R)
      → lookup_field name (add_if o embed_add_footer fs)
        ≡ or_else (lookup_field name fs) (found (same_ignoring_case "footer" name) footer_value o)
  unfolding embed_add_footer
  lookup-add_footer name o fs = lookup-add_if name "footer" o footer_value fs

  lookup-add_media :
      (name key : String) (o : Option EmbedMedia) (fs : Fields R)
      → lookup_field name (add_if o (embed_add_media key) fs)
        ≡ or_else (lookup_field name fs) (found (same_ignoring_case key name) media_value o)
  unfolding embed_add_media
  lookup-add_media name key o fs = lookup-add_if name key o media_value fs

  lookup-add_provider :
      (name : String) (o : Option EmbedProvider) (fs : Fields R)
      → lookup_field name (add_if o embed_add_provider fs)
        ≡ or_else
            (lookup_field name fs)
            (found (same_ignoring_case "provider" name) provider_value o)
  unfolding embed_add_provider
  lookup-add_provider name o fs = lookup-add_if name "provider" o provider_value fs

  lookup-add_author :
      (name : String) (o : Option EmbedAuthor) (fs : Fields R)
      → lookup_field name (add_if o embed_add_author fs)
        ≡ or_else (lookup_field name fs) (found (same_ignoring_case "author" name) author_value o)
  unfolding embed_add_author
  lookup-add_author name o fs = lookup-add_if name "author" o author_value fs

  -- The array of a list, if it has elements.
  abbrev pub array_value : {A : Type 0} → (A → Value R) → List A → Option (Value R)
  array_value make [] = none
  array_value make (a ∷ rest) = some (array (add_each make (a ∷ rest) no_items))

  lookup-add_array :
      {A : Type 0} (name key : String) (make : A → Value R) (xs : List A) (fs : Fields R)
      → lookup_field name (add_array key make xs fs)
        ≡ or_else
            (lookup_field name fs)
            (if same_ignoring_case key name then array_value make xs else none)
  unfolding add_array lookup_field
  lookup-add_array name key make [] fs = elim (Bool-cases (same_ignoring_case key name)) [
    | inl e ↦ rw e (sym (or_else-none (lookup_field name fs)))
    | inr e ↦ rw e (sym (or_else-none (lookup_field name fs)))
  ]
  lookup-add_array name key make (a ∷ rest) fs = refl

  field_value : EmbedField → Value R
  field_value f = object (field_object f)

  -- What is found under each name of an embed.
  pub record IsWritten (e : Embed) (fs : Fields R) : Type 0 where
    pub title : lookup_field "title" fs ≡ Option.map text e.title
    pub type : lookup_field "type" fs ≡ Option.map text e.type
    pub description : lookup_field "description" fs ≡ Option.map text e.description
    pub url : lookup_field "url" fs ≡ Option.map text e.url
    pub timestamp : lookup_field "timestamp" fs ≡ Option.map text e.timestamp
    pub color : lookup_field "color" fs ≡ some (number e.color)
    pub footer : lookup_field "footer" fs ≡ Option.map footer_value e.footer
    pub image : lookup_field "image" fs ≡ Option.map media_value e.image
    pub thumbnail : lookup_field "thumbnail" fs ≡ Option.map media_value e.thumbnail
    pub video : lookup_field "video" fs ≡ Option.map media_value e.video
    pub provider : lookup_field "provider" fs ≡ Option.map provider_value e.provider
    pub author : lookup_field "author" fs ≡ Option.map author_value e.author
    pub fields : lookup_field "fields" fs ≡ array_value (λ f. object (field_object f)) e.fields

  ruleset lookups = (
    lookup-add_text, lookup-add_footer, lookup-add_media, lookup-add_provider, lookup-add_author,
    lookup-add_array, or_else-none,
  )

  pub embed_fields-IsWritten : (e : Embed) → IsWritten e (embed_fields e)
  unfolding embed_fields same_ignoring_case lookup_field or_else
  embed_fields-IsWritten e = record {
    title = simp lookups;
    type = simp lookups;
    description = simp lookups;
    url = simp lookups;
    timestamp = simp lookups;
    color = simp lookups;
    footer = simp lookups;
    image = simp lookups;
    thumbnail = simp lookups;
    video = simp lookups;
    provider = simp lookups;
    author = simp lookups;
    fields = simp lookups;
  }

  pub media_lookups :
      (m : EmbedMedia)
      → (lookup_field {R = R} "url" (media_object m) ≡ Option.map text m.url)
        × (lookup_field {R = R} "height" (media_object m) ≡ some (number m.height))
        × (lookup_field {R = R} "width" (media_object m) ≡ some (number m.width))
  unfolding media_object same_ignoring_case lookup_field or_else
  media_lookups m = (simp lookups, simp lookups, simp lookups)

  pub field_lookups :
      (f : EmbedField)
      → (lookup_field {R = R} "name" (field_object f) ≡ Option.map text f.name)
        × (lookup_field {R = R} "value" (field_object f) ≡ Option.map text f.value)
        × (lookup_field {R = R} "inline" (field_object f) ≡ some (boolean f._inline))
  unfolding field_object same_ignoring_case lookup_field or_else
  field_lookups f = (simp lookups, simp lookups, simp lookups)

  pub footer_lookups :
      (f : EmbedFooter)
      → (lookup_field {R = R} "title" (footer_object f) ≡ none)
        × (lookup_field {R = R} "type" (footer_object f) ≡ none)
        × (lookup_field {R = R} "description" (footer_object f) ≡ none)
        × (lookup_field {R = R} "footer" (footer_object f) ≡ none)
  unfolding footer_object same_ignoring_case lookup_field or_else
  footer_lookups f = (simp lookups, simp lookups, simp lookups, simp lookups)

  provider_lookups_by :
      (name url : Option String)
      → (lookup_field {R = R} "name" (provider_object (record { name = name; url = url }))
          ≡ Option.map text name)
        × (lookup_field {R = R} "url" (provider_object (record { name = name; url = url }))
            ≡ Option.map text (shown_url name url))
  unfolding provider_object same_ignoring_case lookup_field or_else
  provider_lookups_by none url = (refl, refl)
  provider_lookups_by (some name) url = (simp lookups, simp lookups)

  pub provider_lookups :
      (p : EmbedProvider)
      → (lookup_field {R = R} "name" (provider_object p) ≡ Option.map text p.name)
        × (lookup_field {R = R} "url" (provider_object p) ≡ Option.map text (shown_provider p).url)
  provider_lookups p = provider_lookups_by p.name p.url
