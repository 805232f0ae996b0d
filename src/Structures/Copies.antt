-- ===== src/Structures/Copies.antt =====
-- What a copy of a structure keeps: all but what a text has beyond its limit.
use Prim.Native.String.{String}
use disco_c.Prelude.{ℕ, zero, suc, ◌≤◌, ◌≡◌, refl, ap, Option, none, some, arith}
use disco_c.Prelude.Text.{text_length}
use disco_c.Json.{strndup}
use disco_c.Structures.User.{User, copy_text, copied_user, _d_copy_user}
use disco_c.Structures.Member.{Member, copied_member, _d_copy_member}
use disco_c.Structures.Attachment.{Attachment, copied_attachment, _d_copy_attachment}

pub strndup_short : (n : ℕ) (s : String) → text_length s ≤ n → strndup n s ≡ s
unfolding strndup
strndup_short zero String.[] h = refl
strndup_short zero (String.◌∷◌ c s) h = absurd (omega (arith, h))
strndup_short (suc n) String.[] h = refl
strndup_short (suc n) (String.◌∷◌ c s) h = ap (String.◌∷◌ c) (strndup_short n s (omega (arith, h)))

strndup_idem : (n : ℕ) (s : String) → strndup n (strndup n s) ≡ strndup n s
unfolding strndup
strndup_idem zero s = refl
strndup_idem (suc n) String.[] = refl
strndup_idem (suc n) (String.◌∷◌ c s) = ap (String.◌∷◌ c) (strndup_idem n s)

-- A text that is NULL or within a limit.
abbrev pub Fits : ℕ → Option String → Type 0
Fits n none = Unit
Fits n (some s) = text_length s ≤ n

copy_text-Fits : (n : ℕ) (s : Option String) → Fits n s → copy_text n s ≡ s
unfolding copy_text
copy_text-Fits n none h = refl
copy_text-Fits n (some s) h = ap some (strndup_short n s h)

copy_text_idem : (n : ℕ) (s : Option String) → copy_text n (copy_text n s) ≡ copy_text n s
unfolding copy_text
copy_text_idem n none = refl
copy_text_idem n (some s) = ap some (strndup_idem n s)

-- A user whose texts are within the limits of the copies.
pub record IsShortUser (u : User) : Type 0 where
  pub username : Fits 50 u.username
  pub discriminator : Fits 5 u.discriminator
  pub avatar : Fits 100 u.avatar
  pub banner : Fits 100 u.banner
  pub locale : Fits 10 u.locale
  pub email : Fits 100 u.email

-- A user whose texts are within the limits is copied as it is.
copied_user_same : (u : User) → IsShortUser u → copied_user u ≡ u
unfolding copied_user
copied_user_same u w = simp (
  copy_text-Fits 50 u.username w.username,
  copy_text-Fits 5 u.discriminator w.discriminator,
  copy_text-Fits 100 u.avatar w.avatar,
  copy_text-Fits 100 u.banner w.banner,
  copy_text-Fits 10 u.locale w.locale,
  copy_text-Fits 100 u.email w.email,
)

user_idem : (u : Option User) → _d_copy_user (_d_copy_user u) ≡ _d_copy_user u
unfolding _d_copy_user copied_user
user_idem none = refl
user_idem (some u) = simp copy_text_idem

member_idem :
    (m : Option Member) (owner : Option User)
    → _d_copy_member (_d_copy_member m owner) owner ≡ _d_copy_member m owner
unfolding _d_copy_member copied_member
member_idem none owner = refl
member_idem (some m) owner = simp copy_text_idem

attachment_idem :
    (a : Option Attachment) → _d_copy_attachment (_d_copy_attachment a) ≡ _d_copy_attachment a
unfolding _d_copy_attachment copied_attachment
attachment_idem none = refl
attachment_idem (some a) = simp copy_text_idem

-- The copy of a copy is the copy, for users, for members that are copied for the same user, and for
-- attachments, whatever their texts are, and for NULL.
copies_idem :
    (u : Option User) (m : Option Member) (owner : Option User) (a : Option Attachment)
    → (_d_copy_user (_d_copy_user u) ≡ _d_copy_user u)
      × (_d_copy_member (_d_copy_member m owner) owner ≡ _d_copy_member m owner)
      × (_d_copy_attachment (_d_copy_attachment a) ≡ _d_copy_attachment a)
copies_idem u m owner a = (user_idem u, member_idem m owner, attachment_idem a)
