-- ===== src/Outgoing/RoundTrip/Reading.antt =====
-- src/discord/embed.c: what is read from the parts of an embed that were written.
use Prim.Native.String.{String}
use disco_c.Prelude.{◌≡◌, refl, Bool, true, false, Option, none, some}
use disco_c.Prelude.Int.{ℤ, negsuc}
use disco_c.Json.{CJson, _d_get_bool_from_json, _d_get_int_from_json}
use disco_c.Json.Build.{Value, number, boolean, object, Fields, lookup_field}
use disco_c.Structures.Copies.{Fits}
use disco_c.Structures.Embed.{
  EmbedFooter, EmbedMedia, EmbedProvider, EmbedField, _d_json_to_embed_media,
  _d_json_to_embed_provider, _d_json_to_embed_field, as_footer, embed_with,
}
use disco_c.Outgoing.Embeds.{footer_object, media_object, field_object, provider_object}
use disco_c.Outgoing.RoundTrip.{IsTree, read_text}
use disco_c.Outgoing.RoundTrip.Parts.{
  shown_url, shown_provider, media_value, provider_value, footer_value, media_lookups,
  provider_lookups, field_lookups, footer_lookups,
}

shown_url-Fits : (name url : Option String) → Fits 4097 url → Fits 4097 (shown_url name url)
shown_url-Fits none url h = tt
shown_url-Fits (some name) url h = h

module _ {R : Type 0} (json : CJson (Value R)) (tree : IsTree json) where
  pub read_int :
      (name : String) (n default_ : ℤ) (fs : Fields R)
      → lookup_field name fs ≡ some (number n)
      → _d_get_int_from_json json (object fs) name default_ ≡ n
  unfolding _d_get_int_from_json
  read_int name n default_ fs e =
      rw (tree.item fs name, e, tree.numeric n, _d_get_int_from_json) (tree.int n)

  read_bool :
      (name : String) (b default_ : Bool) (fs : Fields R)
      → lookup_field name fs ≡ some (boolean b)
      → _d_get_bool_from_json json (object fs) name default_ ≡ b
  unfolding _d_get_bool_from_json
  read_bool name true default_ fs e =
      rw (tree.item fs name, e, tree.bool true, tree.truth true, _d_get_bool_from_json) refl
  read_bool name false default_ fs e =
      rw (tree.item fs name, e, tree.bool false, tree.truth false, _d_get_bool_from_json) refl

  -- A medium is read with its URL in the place of that of the proxy.
  pub media_round_trip :
      (m : EmbedMedia)
      → Fits 4097 m.url
      → _d_json_to_embed_media json (media_value m) ≡ record m { proxy_url = m.url }
  unfolding _d_json_to_embed_media
  media_round_trip m u =
      let fs = media_object m in
      let l = media_lookups m in
      λ j. record {
        url = read_text json tree "url" m.url fs l.0 u j;
        proxy_url = read_text json tree "url" m.url fs l.0 u j;
        height = read_int "height" m.height (negsuc 0) fs l.1 j;
        width = read_int "width" m.width (negsuc 0) fs l.2 j;
      }

  pub provider_round_trip :
      (p : EmbedProvider)
      → Fits 4097 p.name
      → Fits 4097 p.url
      → _d_json_to_embed_provider json (provider_value p) ≡ shown_provider p
  unfolding _d_json_to_embed_provider
  provider_round_trip p n u =
      let fs = provider_object p in
      let l = provider_lookups p in
      λ j. record {
        name = read_text json tree "name" p.name fs l.0 n j;
        url =
            read_text json tree "url" (shown_provider p).url fs l.1 (shown_url-Fits p.name p.url u)
              j;
      }

  pub field_round_trip :
      (f : EmbedField)
      → Fits 4097 f.name
      → Fits 4097 f.value
      → _d_json_to_embed_field json (object (field_object f)) ≡ f
  unfolding _d_json_to_embed_field
  field_round_trip f n v =
      let fs = field_object f in
      let l = field_lookups f in
      λ j. record {
        name = read_text json tree "name" f.name fs l.0 n j;
        value = read_text json tree "value" f.value fs l.1 v j;
        _inline = read_bool "inline" f._inline false fs l.2 j;
      }

  -- A footer is read as an embed, by whose names it has no texts.
  pub footer_lost :
      (f : EmbedFooter) (footer : Option EmbedFooter)
      → as_footer (embed_with json (footer_value f) footer)
        ≡ record { text = none; icon_url = none; proxy_icon_url = none }
  unfolding as_footer embed_with
  footer_lost f footer =
      let fs = footer_object f in
      let l = footer_lookups f in
      λ j. record {
        text = read_text json tree "title" none fs l.0 tt j;
        icon_url = read_text json tree "type" none fs l.1 tt j;
        proxy_icon_url = read_text json tree "description" none fs l.2 tt j;
      }
