-- ===== src/Outgoing/Embeds.antt =====
-- src/discord/message.c: the JSON of an embed.
use Prim.Native.String.{String}
use disco_c.Prelude.{none, some}
use disco_c.Json.Build.{
  Value, text, number, boolean, object, Fields, no_fields, field, add_text, add_if, add_array,
}
use disco_c.Structures.Embed.{
  EmbedFooter, EmbedMedia, EmbedProvider, EmbedAuthor, EmbedField, Embed,
}

module _ {R : Type 0} where
  unfoldable pub footer_object : EmbedFooter → Fields R
  unfolding add_text
  footer_object footer =
      add_text "proxy_icon_url" footer.proxy_icon_url
        (add_text "icon_url" footer.icon_url (add_text "text" footer.text no_fields))

  unfoldable pub embed_add_footer : EmbedFooter → Fields R → Fields R
  unfolding footer_object
  embed_add_footer footer embed = field embed "footer" (object (footer_object footer))

  unfoldable pub media_object : EmbedMedia → Fields R
  unfolding add_text
  media_object media =
      let urls = add_text "proxy_url" media.proxy_url (add_text "url" media.url no_fields) in
      field (field urls "height" (number media.height)) "width" (number media.width)

  unfoldable pub embed_add_media : String → EmbedMedia → Fields R → Fields R
  unfolding media_object
  embed_add_media media_type media embed = field embed media_type (object (media_object media))

  unfoldable pub author_object : EmbedAuthor → Fields R
  unfolding add_text
  author_object author = add_text "proxy_icon_url" author.proxy_icon_url (
      add_text "icon_url" author.icon_url
        (add_text "url" author.url (add_text "name" author.name no_fields)))

  unfoldable pub embed_add_author : EmbedAuthor → Fields R → Fields R
  unfolding author_object
  embed_add_author author embed = field embed "author" (object (author_object author))

  unfoldable pub field_object : EmbedField → Fields R
  unfolding add_text
  field_object f =
      field (add_text "value" f.value (add_text "name" f.name no_fields)) "inline"
        (boolean f._inline)

  -- The test for the URL is on the name.
  unfoldable pub provider_object : EmbedProvider → Fields R
  unfolding add_text
  provider_object provider = elim provider.name [
    | none ↦ no_fields
    | some name ↦ add_text "url" provider.url (field no_fields "name" (text name))
  ]

  unfoldable pub embed_add_provider : EmbedProvider → Fields R → Fields R
  unfolding provider_object
  embed_add_provider provider embed = field embed "provider" (object (provider_object provider))

  unfoldable pub embed_fields : Embed → Fields R
  unfolding add_text add_if add_array embed_add_footer embed_add_media embed_add_provider
      embed_add_author field_object
  embed_fields embed =
      let texts = add_text "url" embed.url (
        add_text "type" embed.type
          (add_text "description" embed.description (add_text "title" embed.title no_fields))) in
      let colored =
        field (add_text "timestamp" embed.timestamp texts) "color" (number embed.color) in
      let media = add_if embed.video (embed_add_media "video") (
        add_if embed.thumbnail (embed_add_media "thumbnail") (
          add_if embed.image (embed_add_media "image")
            (add_if embed.footer embed_add_footer colored))) in
      add_array "fields" (λ f. object (field_object f)) embed.fields
        (add_if embed.author embed_add_author (add_if embed.provider embed_add_provider media))

  unfoldable pub create_embed_json : Embed → Value R
  unfolding embed_fields
  create_embed_json embed = object (embed_fields embed)
