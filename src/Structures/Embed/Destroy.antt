-- ===== src/Structures/Embed/Destroy.antt =====
-- src/discord/embed.c: the destruction of embeds, as the blocks of memory that are freed.
use Prim.Native.String.{String}
use disco_c.Prelude.{
  ℕ, zero, suc, ◌+◌, ◌≡◌, refl, Bool, true, false, Option, none, some, List, [], ◌∷◌, ◌++◌, arith,
  length, if◌then◌else◌,
}
use disco_c.Structures.User.{free_texts}
use disco_c.Structures.Embed.{
  EmbedFooter, EmbedMedia, EmbedProvider, EmbedAuthor, EmbedField, Embed,
}

-- The blocks of an embed; those of its parts are not told apart.
pub data EmbedBlock : Type 0 where
  title_text type_text description_text url_text timestamp_text : EmbedBlock
  block_of_part fields_array embed_itself : EmbedBlock

-- So many blocks of a part.
unfoldable pub part_blocks : ℕ → List EmbedBlock
part_blocks zero = []
part_blocks (suc n) = block_of_part ∷ part_blocks n

-- The texts of a part and its structure.
unfoldable pub freed_part : List (Option String) → List EmbedBlock
unfolding free_texts part_blocks
freed_part texts = part_blocks (length (free_texts texts) + 1)

unfoldable pub discord_destroy_embed_footer : EmbedFooter → List EmbedBlock
unfolding freed_part
discord_destroy_embed_footer footer =
    freed_part (footer.text ∷ footer.icon_url ∷ footer.proxy_icon_url ∷ [])

unfoldable pub discord_destroy_embed_media : EmbedMedia → List EmbedBlock
unfolding freed_part
discord_destroy_embed_media media = freed_part (media.url ∷ media.proxy_url ∷ [])

unfoldable pub discord_destroy_embed_provider : EmbedProvider → List EmbedBlock
unfolding freed_part
discord_destroy_embed_provider provider = freed_part (provider.name ∷ provider.url ∷ [])

unfoldable pub discord_destroy_embed_author : EmbedAuthor → List EmbedBlock
unfolding freed_part
discord_destroy_embed_author author =
    freed_part (author.name ∷ author.url ∷ author.icon_url ∷ author.proxy_icon_url ∷ [])

unfoldable pub discord_destroy_embed_field : EmbedField → List EmbedBlock
unfolding freed_part
discord_destroy_embed_field f = freed_part (f.name ∷ f.value ∷ [])

-- A block that is freed if the pointer to it is not NULL.
unfoldable pub free_text : Option String → EmbedBlock → List EmbedBlock
free_text none block = []
free_text (some s) block = block ∷ []

unfoldable pub free_part : {A : Type 0} → Option A → (A → List EmbedBlock) → List EmbedBlock
free_part none destroy = []
free_part (some a) destroy = destroy a

unfoldable pub free_fields : List EmbedField → List EmbedBlock
unfolding discord_destroy_embed_field
free_fields [] = []
free_fields (f ∷ rest) = discord_destroy_embed_field f ++ free_fields rest

unfoldable pub free_fields_array : List EmbedField → List EmbedBlock
free_fields_array [] = []
free_fields_array (f ∷ rest) = fields_array ∷ []

-- If there is a timestamp, the title is freed in its place.
unfoldable pub free_texts_of : Embed → List EmbedBlock
unfolding free_text free_part
free_texts_of e =
    free_text e.title title_text
    ++ free_text e.type type_text
    ++ free_text e.description description_text
    ++ free_text e.url url_text
    ++ free_part e.timestamp (λ _. free_text e.title title_text)

unfoldable pub free_parts_of : Embed → List EmbedBlock
unfolding free_part discord_destroy_embed_footer discord_destroy_embed_media
    discord_destroy_embed_provider discord_destroy_embed_author free_fields
free_parts_of e =
    free_part e.footer discord_destroy_embed_footer
    ++ free_part e.image discord_destroy_embed_media
    ++ free_part e.thumbnail discord_destroy_embed_media
    ++ free_part e.video discord_destroy_embed_media
    ++ free_part e.provider discord_destroy_embed_provider
    ++ free_part e.author discord_destroy_embed_author
    ++ free_fields e.fields

unfoldable pub discord_destroy_embed : Embed → List EmbedBlock
unfolding free_texts_of free_parts_of free_fields_array
discord_destroy_embed embed =
    free_texts_of embed
    ++ free_parts_of embed
    ++ free_fields_array embed.fields
    ++ embed_itself ∷ []

-- How often a test holds in a list.
abbrev pub occurrences : (EmbedBlock → Bool) → List EmbedBlock → ℕ
occurrences test [] = 0
occurrences test (b ∷ rest) = (if test b then 1 else 0) + occurrences test rest

abbrev pub is_title : EmbedBlock → Bool
is_title title_text = true
is_title _ = false

abbrev pub is_timestamp : EmbedBlock → Bool
is_timestamp timestamp_text = true
is_timestamp _ = false

abbrev pub given : Option String → ℕ
given none = 0
given (some s) = 1

occurrences_append :
    (test : EmbedBlock → Bool) (xs ys : List EmbedBlock)
    → occurrences test (xs ++ ys) ≡ occurrences test xs + occurrences test ys
occurrences_append test [] ys = omega arith
occurrences_append test (x ∷ xs) ys = omega (arith, occurrences_append test xs ys)

occurrences-part_blocks :
    (test : EmbedBlock → Bool) (n : ℕ)
    → test block_of_part ≡ false
    → occurrences test (part_blocks n) ≡ 0
unfolding part_blocks
occurrences-part_blocks test zero h = refl
occurrences-part_blocks test (suc n) h = rw h (omega (arith, occurrences-part_blocks test n h))

module _ (test : EmbedBlock → Bool) (h : test block_of_part ≡ false) where
  occurrences-freed_part : (texts : List (Option String)) → occurrences test (freed_part texts) ≡ 0
  unfolding freed_part
  occurrences-freed_part texts = occurrences-part_blocks test (length (free_texts texts) + 1) h

  occurrences-free_part :
      {A : Type 0} (o : Option A) (texts : A → List (Option String))
      → occurrences test (free_part o (λ a. freed_part (texts a))) ≡ 0
  unfolding free_part
  occurrences-free_part none texts = refl
  occurrences-free_part (some a) texts = occurrences-freed_part (texts a)

  occurrences-free_fields : (fs : List EmbedField) → occurrences test (free_fields fs) ≡ 0
  unfolding free_fields discord_destroy_embed_field
  occurrences-free_fields [] = refl
  occurrences-free_fields (f ∷ rest) = omega (
    arith,
    occurrences_append test (freed_part (f.name ∷ f.value ∷ [])) (free_fields rest),
    occurrences-freed_part (f.name ∷ f.value ∷ []),
    occurrences-free_fields rest,
  )

  occurrences-free_parts_of : (e : Embed) → occurrences test (free_parts_of e) ≡ 0
  unfolding free_parts_of discord_destroy_embed_footer discord_destroy_embed_media
      discord_destroy_embed_provider discord_destroy_embed_author
  occurrences-free_parts_of e =
      simp (occurrences_append, occurrences-free_part, occurrences-free_fields)

-- How often a title is freed: once if it is given, and once more if a timestamp is given too.
abbrev pub title_frees : Option String → Option String → ℕ
title_frees timestamp none = 0
title_frees none (some title) = 1
title_frees (some timestamp) (some title) = 2

occurrences-free_text :
    (test : EmbedBlock → Bool) (o : Option String) (b : EmbedBlock)
    → test b ≡ false
    → occurrences test (free_text o b) ≡ 0
unfolding free_text
occurrences-free_text test none b h = refl
occurrences-free_text test (some s) b h = rw h refl

occurrences-titles :
    (timestamp title : Option String)
    → (occurrences is_title (free_text title title_text)
          + occurrences is_title (free_part timestamp (λ _. free_text title title_text))
        ≡ title_frees timestamp title)
      × (occurrences is_timestamp (free_part timestamp (λ _. free_text title title_text)) ≡ 0)
unfolding free_text free_part
occurrences-titles none none = (refl, refl)
occurrences-titles none (some s) = (refl, refl)
occurrences-titles (some t) none = (refl, refl)
occurrences-titles (some t) (some s) = (refl, refl)

occurrences-free_fields_array :
    (test : EmbedBlock → Bool) (fs : List EmbedField)
    → test fields_array ≡ false
    → occurrences test (free_fields_array fs) ≡ 0
unfolding free_fields_array
occurrences-free_fields_array test [] h = refl
occurrences-free_fields_array test (f ∷ rest) h = rw h refl

occurrences-free_texts_of :
    (e : Embed)
    → (occurrences is_title (free_texts_of e) ≡ title_frees e.timestamp e.title)
      × (occurrences is_timestamp (free_texts_of e) ≡ 0)
unfolding free_texts_of
occurrences-free_texts_of e = (
  simp
      (
        occurrences_append,
        occurrences-free_text is_title e.type type_text refl,
        occurrences-free_text is_title e.description description_text refl,
        occurrences-free_text is_title e.url url_text refl,
      )
      (omega (arith, (occurrences-titles e.timestamp e.title).0)),
  simp (
    occurrences_append,
    occurrences-free_text is_timestamp e.title title_text refl,
    occurrences-free_text is_timestamp e.type type_text refl,
    occurrences-free_text is_timestamp e.description description_text refl,
    occurrences-free_text is_timestamp e.url url_text refl,
    (occurrences-titles e.timestamp e.title).1,
  ),
)

-- Blocks other than those of parts, the array and the embed itself are those of its own texts.
occurrences-destroy :
    (test : EmbedBlock → Bool) (e : Embed)
    → test block_of_part ≡ false
    → test fields_array ≡ false
    → test embed_itself ≡ false
    → occurrences test (discord_destroy_embed e) ≡ occurrences test (free_texts_of e)
unfolding discord_destroy_embed
occurrences-destroy test e p f i =
    let last : occurrences test (embed_itself ∷ []) ≡ 0 = rw i refl in
    let own = free_texts_of e ++ free_parts_of e in
    let all : occurrences test ((own ++ free_fields_array e.fields) ++ embed_itself ∷ [])
        ≡ occurrences test (free_texts_of e) =
      omega (
        arith,
        occurrences_append test (own ++ free_fields_array e.fields) (embed_itself ∷ []),
        occurrences_append test own (free_fields_array e.fields),
        occurrences_append test (free_texts_of e) (free_parts_of e),
        occurrences-free_parts_of test p e,
        occurrences-free_fields_array test e.fields f,
        last,
      ) in
    all

-- The title of an embed is freed as often as it is given, and once more if the embed has a
-- timestamp; the timestamp is never freed.
pub discord_destroy_embed_frees :
    (e : Embed)
    → (occurrences is_title (discord_destroy_embed e) ≡ title_frees e.timestamp e.title)
      × (occurrences is_timestamp (discord_destroy_embed e) ≡ 0)
unfolding discord_destroy_embed
discord_destroy_embed_frees e =
    let (t, s) = occurrences-free_texts_of e in
    (
      omega (arith, occurrences-destroy is_title e refl refl refl, t),
      omega (arith, occurrences-destroy is_timestamp e refl refl refl, s),
    )
