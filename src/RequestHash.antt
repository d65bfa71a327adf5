-- ===== src/RequestHash.antt =====
-- `request_hash` of app/application/common.py. Writing an object out as it stands and the digest are
-- parameters; the sorting of its keys, at every depth, is the model's.
pub mod Reordered
mod Tests
use Prim.Native.String as Text
use Prim.Native.Char.{Char, code}
use ioka.Prelude.{ℕ, String, Bool, true, false, ◌&&◌, ◌||◌, ltb, eqb, if◌then◌else◌}
use ioka.Bytes.{Bytes, encode}
use ioka.Json.{Json, object, null, text, number, boolean, date, amount, Fields, nil, field}

pub record Canonical : Type 0 where
  -- `json.dumps(payload, separators=(",", ":"), default=str)`, the keys in their order
  pub dumps : Fields → String
  -- `hashlib.sha256(data).hexdigest()`
  pub hexdigest : Bytes → String

-- Python's `<` of texts
unfoldable pub precedes : String → String → Bool
precedes Text.[] Text.[] = false
precedes Text.[] (Text.◌∷◌ d t) = true
precedes (Text.◌∷◌ c s) Text.[] = false
precedes (Text.◌∷◌ c s) (Text.◌∷◌ d t) =
    let rest = precedes s t in ltb (code c) (code d) || (eqb (code c) (code d) && rest)

unfoldable pub insert_field : String → Json → Fields → Fields
insert_field name value nil = field name value nil
insert_field name value (field other v rest) =
    let later = insert_field name value rest in
    if precedes name other then field name value (field other v rest) else field other v later

unfoldable mutual
  pub sort_json : Json → Json
  sort_json (object fields) = object (sort_keys fields)
  sort_json null = null
  sort_json (text s) = text s
  sort_json (number n) = number n
  sort_json (boolean b) = boolean b
  sort_json (date d) = date d
  sort_json (amount x) = amount x

  -- `sort_keys=True`
  pub sort_keys : Fields → Fields
  sort_keys nil = nil
  sort_keys (field name value rest) = insert_field name (sort_json value) (sort_keys rest)

unfoldable pub request_hash : Canonical → Fields → String
request_hash lib payload = lib.hexdigest (encode (lib.dumps (sort_keys payload)))
