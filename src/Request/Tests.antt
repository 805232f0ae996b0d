-- ===== src/Request/Tests.antt =====
-- The theorems about requests at a concrete request.
use disco_c.Prelude.{◌<◌, ◌≡◌, refl, ◌⊎◌, none, some, List, [], ◌∷◌}
use disco_c.Request.{request_get, multiple_message_callback, RequestNode, Reply, messages, deliver}
use disco_c.Request.Delivery.{deliver_overruns}
use disco_c.Samples.{json, structs, id_of, tables, caches, midnight}

abbrev node : RequestNode
node = record {
  url = "url";
  json = none;
  request_type = request_get;
  token = "token";
  rc = none;
  iteration = 0;
  http = 0;
}

abbrev failed : Reply
failed = record { code = 502; response = []; now = midnight }

abbrev limited : Reply
limited = record { code = 429; response = 5 ∷ []; now = midnight }

abbrev failures : List Reply
failures = failed ∷ failed ∷ failed ∷ failed ∷ failed ∷ failed ∷ []

-- The array 7 has two elements.
deliver_overruns_example :
    let r = deliver json structs tables id_of (some multiple_message_callback) (some 7) caches in
    ((json.elements 7 ≡ []) × (r ≡ some (caches, messages 0 []))) ⊎ ((0 < 2) × (r ≡ none))
deliver_overruns_example = deliver_overruns json structs tables id_of 7 caches refl
