-- ===== src/Outgoing/Message/Urls.antt =====
-- The buffers of src/discord/message.c that URLs are printed into.
use Prim.Native.String.{String}
use disco_c.Prelude.{
  ℕ, suc, ◌+◌, ◌^◌, ◌≤◌, ◌<◌, ◌≡◌, refl, sym, ap, Bool, true, false, not, Option, none, some, arith,
  ◌==◌, if◌then◌else◌,
}
use disco_c.Prelude.Int.{ℤ, pos, negsuc, pos_part, neg_part, eqb_ℤ}
use disco_c.Prelude.Text.{text_length}
use disco_c.Prelude.Decimal.{
  ◌&◌, print_uint, &_empty, length-&, length-print_uint, most-print_uint, least-print_uint,
}
use disco_c.TPool.{TPool}
use disco_c.Request.{RequestNode, message_callback, multiple_message_callback, request_get, request}
use disco_c.Structures.Copies.{strndup_short}
use disco_c.Outgoing.Buffer.{sprintf}
use disco_c.Outgoing.Buffer.Fits.{sprintf_fits, sprintf_full}
use disco_c.Outgoing.Message.{
  messages_url, message_url, print_int, id_field, append_part, limit_field, list_url,
  discord_get_messages, discord_fetch_message,
}

pub length-messages_url : (id : ℕ) → id < 2 ^ 64 → text_length (messages_url id) ≤ 66
unfolding messages_url
length-messages_url id h = omega (
  arith,
  length-& "https://discord.com/api/v10/channels/" (print_uint id & "/messages"),
  length-& (print_uint id) "/messages",
  length-print_uint id h,
)

pub length-message_url : (c m : ℕ) → c < 2 ^ 64 → m < 2 ^ 64 → text_length (message_url c m) ≤ 87
unfolding message_url
length-message_url c m h k = omega (
  arith,
  length-& (messages_url c) ("/" & print_uint m),
  length-& "/" (print_uint m),
  length-messages_url c h,
  length-print_uint m k,
)

abbrev pub part : Option String → String
part none = ""
part (some s) = s

-- A part that fits is appended as it is.
append_part_lem :
    (size : ℕ) (p : Option String) (url : String)
    → text_length (part p) < size
    → append_part size p (some url) ≡ some (url & part p)
unfolding append_part
append_part_lem size none url h = ap some (sym (&_empty url))
append_part_lem size (some s) url h =
    rw (sprintf_fits size s h, append_part)
      (ap (λ t. some (url & t)) (strndup_short size s (omega (arith, h))))

length-part_if :
    (b : Bool) (o p : Option String) (k : ℕ)
    → text_length (part o) ≤ k
    → text_length (part p) ≤ k
    → text_length (part (if b then o else p)) ≤ k
length-part_if true o p k h l = h
length-part_if false o p k h l = l

length-id_field :
    (around before after : ℕ)
    → around < 2 ^ 64
    → before < 2 ^ 64
    → after < 2 ^ 64
    → text_length (part (id_field around before after)) ≤ 27
unfolding id_field
length-id_field around before after a b c =
    length-part_if (not (around == 0)) (some ("around=" & print_uint around)) _ 27
      (omega (arith, length-& "around=" (print_uint around), length-print_uint around a))
      (length-part_if (not (before == 0)) (some ("before=" & print_uint before)) _ 27
        (omega (arith, length-& "before=" (print_uint before), length-print_uint before b))
        (length-part_if (not (after == 0)) (some ("after=" & print_uint after)) none 27
          (omega (arith, length-& "after=" (print_uint after), length-print_uint after c))
          (omega arith)))

length-limit_field :
    (id : Option String) (limit : ℤ)
    → pos_part limit < 10 ^ 7
    → neg_part limit < 10 ^ 6
    → text_length (part (limit_field id limit)) ≤ 14
unfolding limit_field print_int
length-limit_field none (pos n) h k =
    length-part_if (n + 0 == 0) none (some ("limit=" & print_uint n)) 14 (omega arith)
      (omega (arith, length-& "limit=" (print_uint n), most-print_uint 7 n (omega (arith, h))))
length-limit_field (some i) (pos n) h k =
    length-part_if (n + 0 == 0) none (some ("&limit=" & print_uint n)) 14 (omega arith)
      (omega (arith, length-& "&limit=" (print_uint n), most-print_uint 7 n (omega (arith, h))))
length-limit_field none (negsuc m) h k =
    length-part_if (eqb_ℤ (negsuc m) (pos 0)) none (some ("limit=" & "-" & print_uint (suc m))) 14
      (omega arith)
      (omega (
        arith,
        length-& "limit=" ("-" & print_uint (suc m)),
        length-& "-" (print_uint (suc m)),
        most-print_uint 6 (suc m) (omega (arith, k)),
      ))
length-limit_field (some i) (negsuc m) h k =
    length-part_if (eqb_ℤ (negsuc m) (pos 0)) none (some ("&limit=" & "-" & print_uint (suc m))) 14
      (omega arith)
      (omega (
        arith,
        length-& "&limit=" ("-" & print_uint (suc m)),
        length-& "-" (print_uint (suc m)),
        most-print_uint 6 (suc m) (omega (arith, k)),
      ))

-- With IDs below 2^64 and a limit from -999999 to 9999999, asking for messages overruns none of the three buffers and cuts
-- nothing off: one request is queued, to the URL of the channel's messages with the first of the three IDs that is
-- not 0 and with the limit if it is not 0, and with a callback for several messages.
pub get_messages_queues :
    (token : String) (channel_id : ℕ) (limit : ℤ) (around before after : ℕ)
    (pool : TPool RequestNode)
    → channel_id < 2 ^ 64
    → pos_part limit < 10 ^ 7
    → neg_part limit < 10 ^ 6
    → around < 2 ^ 64
    → before < 2 ^ 64
    → after < 2 ^ 64
    → let id = id_field around before after in
      discord_get_messages token channel_id limit around before after pool
      ≡ some (
          request
            (((messages_url channel_id & "?") & part id) & part (limit_field id limit))
            none
            request_get
            token
            (some multiple_message_callback)
            pool)
unfolding discord_get_messages list_url
get_messages_queues token channel_id limit around before after pool h l g a b c =
    let id = id_field around before after in
    let printed = limit_field id limit in
    let base = messages_url channel_id & "?" in
    let k = length-id_field around before after a b c in
    let m = length-limit_field id limit l g in
    let o : text_length base ≤ 67 =
      omega (arith, length-& (messages_url channel_id) "?", length-messages_url channel_id h) in
    let fits = sprintf_fits 200 base (omega (arith, o)) in
    let first = append_part_lem 35 id base (omega (arith, k)) in
    let second = append_part_lem 15 printed (base & part id) (omega (arith, m)) in
    let whole =
      sprintf_fits 200 ((base & part id) & part printed) (
        omega
          (arith, length-& (base & part id) (part printed), length-& base (part id), o, k, m)) in
    rw (fits, first, second, whole, list_url) refl

append_part_full :
    (size : ℕ) (s : String) (url : Option String)
    → size ≤ text_length s
    → append_part size (some s) url ≡ none
unfolding append_part
append_part_full size s none h = refl
append_part_full size s (some url) h = rw (sprintf_full size s h, append_part) refl

large_limit : (n : ℕ) → 10 ^ 7 ≤ n → (n + 0 == 0) ≡ false
large_limit n l = ground (arith, l)

-- If one of the three IDs is not 0, a limit of at least 10^7, an `int` that is printed with its name behind
-- the ID, overruns its buffer of 15 bytes.
get_messages_overrun :
    (token : String) (channel_id n around before after : ℕ) (pool : TPool RequestNode) (id : String)
    → id_field around before after ≡ some id
    → 10 ^ 7 ≤ n
    → n < 2 ^ 31
    → discord_get_messages token channel_id (pos n) around before after pool ≡ none
unfolding discord_get_messages list_url limit_field print_int
get_messages_overrun token channel_id n around before after pool id e l h =
    let f = large_limit n l in
    let url = append_part 35 (some id) (sprintf 200 (messages_url channel_id & "?")) in
    let full = append_part_full 15 ("&limit=" & print_uint n) url (
      omega (
        arith,
        length-& "&limit=" (print_uint n),
        least-print_uint 8 n (omega arith) (omega (arith, l)),
      )) in
    rw (e, f, full, list_url, limit_field) refl

-- Fetching with a callback and IDs below 2^64 queues one request, to the URL of the message, for a single message.
pub fetch_message_queues :
    (token : String) (channel_id message_id : ℕ) (pool : TPool RequestNode)
    → channel_id < 2 ^ 64
    → message_id < 2 ^ 64
    → discord_fetch_message token channel_id message_id true pool
      ≡ some (
          request
            (message_url channel_id message_id)
            none
            request_get
            token
            (some message_callback)
            pool)
unfolding discord_fetch_message
fetch_message_queues token channel_id message_id pool h k =
    rw
      (
        sprintf_fits 100 (message_url channel_id message_id)
            (omega (arith, length-message_url channel_id message_id h k)),
        discord_fetch_message,
      )
      refl
