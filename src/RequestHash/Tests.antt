-- ===== src/RequestHash/Tests.antt =====
-- A body with its keys in two orders.
use ioka.Prelude.{refl, ◌≡◌, String, arith, eq_iff}
use ioka.Json.{text, object, Fields, nil, field}
use ioka.RequestHash.{Canonical, sort_keys, insert_field, precedes, request_hash}
use ioka.RequestHash.Reordered.{Reordered, swap, inside, chain, request_hash-Reordered}

-- The dump is the first key.
abbrev first_key : Fields → String
first_key nil = ""
first_key (field name value rest) = name

abbrev canonical : Canonical
canonical = record { dumps = first_key; hexdigest = λ data_bytes. "digest" }

abbrev passenger : Fields
passenger = field "last_name" (text "KARIMOV") (field "first_name" (text "ALI") nil)

abbrev renamed : Fields
renamed = field "first_name" (text "ALI") (field "last_name" (text "KARIMOV") nil)

abbrev body : Fields
body = field "passenger" (object passenger) (field "offer_id" (text "offer-1") nil)

abbrev other_body : Fields
other_body = field "offer_id" (text "offer-1") (field "passenger" (object renamed) nil)

sorted : sort_keys body ≡ other_body
unfolding sort_keys insert_field precedes
sorted = refl

body-Reordered : Reordered body other_body
body-Reordered =
    chain (inside (swap (ground (arith, eq_iff "last_name" "first_name"))))
      (swap (ground (arith, eq_iff "passenger" "offer_id")))

request_hash-Reordered_example : request_hash canonical body ≡ request_hash canonical other_body
request_hash-Reordered_example = request_hash-Reordered canonical body other_body body-Reordered
