-- ===== src/Json.antt =====
-- The JSON values that the service stores and hashes: `dict[str, Any]` columns and the dumps of
-- app/schemas.py. Where Python writes the text of a date or of an amount (`isoformat()`, `str()`),
-- the value itself is kept as a leaf.
use ioka.Prelude.{ℕ, String, Bool, Option, none, some, ◌==◌, if◌then◌else◌}
use ioka.Prelude.Int.{ℤ}
use ioka.Domain.Calendar.{Date}

mutual
  pub data Json : Type 0 where
    null : Json
    text : String → Json
    number : ℕ → Json
    boolean : Bool → Json
    date : Date → Json
    amount : ℤ → Json
    object : Fields → Json

  pub data Fields : Type 0 where
    nil : Fields
    field : String → Json → Fields → Fields

abbrev pub text_of : Json → Option String
text_of (text s) = some s
text_of _ = none

-- `payload.get(name)`; a value that is no text, which the service never stores where it reads one,
-- counts as missing.
abbrev pub get_text : String → Fields → Option String
get_text name nil = none
get_text name (field other value rest) =
    let later = get_text name rest in if other == name then text_of value else later

-- `{"search_id": search_id}`, which the cache and the queue hold.
abbrev pub search_message : String → Fields
search_message search_id = field "search_id" (text search_id) nil
