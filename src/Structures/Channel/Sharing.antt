-- ===== src/Structures/Channel/Sharing.antt =====
-- src/discord/channel.c: the icon that a copy of a channel shares with its original.
use mathlib.Core.Option
use disco_c.Prelude.{
  ℕ, ◌+◌, ◌≤◌, ◌<◌, ◌≡◌, refl, ◌∙◌, ◌≢◌, true, false, Option, none, some, List, [], ◌∷◌, arith,
  ◌==◌, if◌then◌else◌,
}
use disco_c.Json.{strndup}
use disco_c.Structures.Channel.{
  Text, Channel, copied_text, copied_topic, copied_channel, addresses, discord_destroy_channel,
}

-- How often an address stands in a list.
abbrev pub times : ℕ → List ℕ → ℕ
times a [] = 0
times a (b ∷ rest) = (if a == b then 1 else 0) + times a rest

abbrev at_text : ℕ → Option Text → ℕ
at_text a none = 0
at_text a (some t) = if a == t.address then 1 else 0

times-addresses :
    (a : ℕ) (o : Option Text) (rest : List (Option Text))
    → times a (addresses (o ∷ rest)) ≡ at_text a o + times a (addresses rest)
unfolding addresses
times-addresses a none rest = omega arith
times-addresses a (some t) rest = refl

times-no_addresses : (a : ℕ) → times a (addresses []) ≡ 0
unfolding addresses
times-no_addresses a = refl

at_copied_text : (a n limit : ℕ) (o : Option Text) → a < n → at_text a (copied_text n limit o) ≡ 0
unfolding copied_text
at_copied_text a n limit none h = refl
at_copied_text a n limit (some t) h = let e : (a == n) ≡ false = ground (arith, h) in rw e refl

-- How often an address is among six texts.
times-six :
    (a : ℕ) (o p q r s t : Option Text)
    → times a (addresses (o ∷ p ∷ q ∷ r ∷ s ∷ t ∷ []))
      ≡ at_text a o + at_text a p + at_text a q + at_text a r + at_text a s + at_text a t
times-six a o p q r s t = omega (
  arith,
  times-addresses a o (p ∷ q ∷ r ∷ s ∷ t ∷ []),
  times-addresses a p (q ∷ r ∷ s ∷ t ∷ []),
  times-addresses a q (r ∷ s ∷ t ∷ []),
  times-addresses a r (s ∷ t ∷ []),
  times-addresses a s (t ∷ []),
  times-addresses a t [],
  times-no_addresses a,
)

at_self : (t : Text) → at_text t.address (some t) ≡ 1
at_self t = let e : (t.address == t.address) ≡ true = ground arith in rw e refl

at_icon : (o : Option Text) (icon : Text) → o ≡ some icon → at_text icon.address o ≡ 1
at_icon o icon e = rw e (at_self icon)

at_copied_topic :
    (a n : ℕ) (topic : Option Text) (o : Option Text)
    → a < n
    → at_text a (copied_topic n topic o) ≡ 0
unfolding copied_topic
at_copied_topic a n topic none h = at_copied_text a (n + 1) 1025 topic (omega (arith, h))
at_copied_topic a n topic (some icon) h =
    at_copied_text a (n + 2) 1025 (some icon) (omega (arith, h))

copied_topic-content :
    (n : ℕ) (topic o : Option Text) (icon : Text)
    → o ≡ some icon
    → Option.map (λ t. t.content) (copied_topic n topic o) ≡ some (strndup 1025 icon.content)
unfolding copied_topic copied_text
copied_topic-content n topic o icon e = rw (e, copied_topic) refl

at_other :
    (a : ℕ) (o : Option Text) (icon : Text) → o ≡ some icon → ◌≢◌ a icon.address → at_text a o ≡ 0
at_other a o icon e d = let f : (a == icon.address) ≡ false = ground (arith, d) in rw e (rw f refl)

-- An address below `next` is freed with the copy as often as it is that of the icon.
times-copied_channel :
    (ch : Channel) (next a : ℕ)
    → a < next
    → times a (discord_destroy_channel (copied_channel next ch)) ≡ at_text a ch.icon
unfolding discord_destroy_channel copied_channel
times-copied_channel ch next a h = omega (
  arith,
  times-six a (copied_text next 101 ch.name) (copied_topic next ch.topic ch.icon) ch.icon
      (copied_text (next + 3) 100 ch.last_pin_timestamp) (copied_text (next + 4) 100 ch.rtc_region)
      (copied_text (next + 5) 100 ch.permissions),
  at_copied_text a next 101 ch.name h,
  at_copied_topic a next ch.topic ch.icon h,
  at_copied_text a (next + 3) 100 ch.last_pin_timestamp (omega (arith, h)),
  at_copied_text a (next + 4) 100 ch.rtc_region (omega (arith, h)),
  at_copied_text a (next + 5) 100 ch.permissions (omega (arith, h)),
)

-- A channel with an icon that was allocated before its copy was made: the channel and the copy both free the
-- icon, and the copy has the icon's text, cut to 1025 characters, as its topic. Another address `a` from before
-- the copy is not freed with the copy.
pub destroy-copied_channel :
    (ch : Channel) (next : ℕ) (icon : Text) (a : ℕ)
    → ch.icon ≡ some icon
    → icon.address < next
    → a < next
    → ◌≢◌ a icon.address
    → (1 ≤ times icon.address (discord_destroy_channel ch))
      × (times icon.address (discord_destroy_channel (copied_channel next ch)) ≡ 1)
      × (Option.map (λ t. t.content) (copied_channel next ch).topic
          ≡ some (strndup 1025 icon.content))
      × (times a (discord_destroy_channel (copied_channel next ch)) ≡ 0)
unfolding discord_destroy_channel copied_channel
destroy-copied_channel ch next icon a e h l d = (
  omega (
    arith,
    times-six icon.address ch.name ch.topic ch.icon ch.last_pin_timestamp ch.rtc_region
        ch.permissions,
    at_icon ch.icon icon e,
  ),
  times-copied_channel ch next icon.address h ∙ at_icon ch.icon icon e,
  copied_topic-content next ch.topic ch.icon icon e,
  times-copied_channel ch next a l ∙ at_other a ch.icon icon e d,
)
