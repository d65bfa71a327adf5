-- ===== src/Schemas/Validation.antt =====
-- The constraints and validators of the request bodies of app/schemas.py, on fields of the right
-- types; reading JSON into those is pydantic's. A field's constraints are tested before the
-- validator of the class runs, on the text as it came. `none` is the answer with status 422.
pub mod Bounds
use Prim.Native.String as Text
use ioka.Prelude.{
  ℕ, String, Bool, true, false, not, ◌&&◌, ◌||◌, Option, none, some, ◌==◌, ltb, leb, eqb,
  if◌then◌else◌,
}
use ioka.Prelude.Int.{ℤ, pos, negsuc}
use ioka.Bytes.{TextMethods}
use ioka.Domain.Calendar.{Date}
use ioka.Schemas.{LoginRequest, SearchRequest, Passenger, OrderCreate}

-- The fields of a body as the client sends them; those with a default may be missing.
pub record SearchBody : Type 0 where
  pub origin : String
  pub destination : String
  pub departure_date : Date
  pub adults : Option ℤ
  pub cabin_class : Option String

-- `Field(min_length=least, max_length=most)`
unfoldable pub sized : ℕ → ℕ → String → Option String
sized least most s = if leb least (Text.count s) && leb (Text.count s) most then some s else none

abbrev pub ◌>>=?◌ {ℓ κ} : {A : Type ℓ} {B : Type κ} → Option A → (A → Option B) → Option B
none >>=? f = none
some a >>=? f = f a

infixl 5 ◌>>=?◌
-- `Field(default=1, ge=1, le=9)`
unfoldable pub adults_field : Option ℤ → Option ℕ
adults_field none = some 1
adults_field (some (negsuc n)) = none
adults_field (some (pos n)) = if leb 1 n && leb n 9 then some n else none

-- `Literal["ECONOMY", "PREMIUM_ECONOMY", "BUSINESS"] = "ECONOMY"`
unfoldable pub cabin_field : Option String → Option String
cabin_field none = some "ECONOMY"
cabin_field (some s) =
    if s == "ECONOMY" || s == "PREMIUM_ECONOMY" || s == "BUSINESS" then some s else none

-- `value < date.today()`
unfoldable pub is_before : Date → Date → Bool
is_before a b =
    ltb a.year b.year
    || (eqb a.year b.year && (ltb a.month b.month || (eqb a.month b.month && ltb a.day b.day)))

unfoldable pub ensure_not_in_past : Date → Date → Option Date
unfolding is_before
ensure_not_in_past today value = if is_before value today then none else some value

module _ (methods : TextMethods) where
  unfoldable pub normalize_iata : String → Option String
  normalize_iata value =
      let normalized = methods.upper (methods.strip value) in
      if not (methods.isalpha normalized) then none else some normalized

  unfoldable pub iata_field : String → Option String
  unfolding sized normalize_iata
  iata_field value = sized 3 3 value >>=? normalize_iata

  -- `value.strip().upper()`
  abbrev pub strip_text : String → String
  strip_text value = methods.upper (methods.strip value)

  unfoldable pub text_field : ℕ → ℕ → String → Option String
  unfolding sized
  text_field least most value = sized least most value >>=? λ s. some (strip_text s)

  unfoldable pub validate_search : Date → SearchBody → Option SearchRequest
  unfolding iata_field adults_field cabin_field ensure_not_in_past
  validate_search today body = iata_field body.origin >>=? λ origin.
      iata_field body.destination >>=? λ destination.
      ensure_not_in_past today body.departure_date >>=? λ departure_date.
      adults_field body.adults >>=? λ adults. cabin_field body.cabin_class >>=? λ cabin_class.
      some (record {
        origin = origin;
        destination = destination;
        departure_date = departure_date;
        adults = adults;
        cabin_class = cabin_class;
      })

  unfoldable pub validate_passenger : Passenger → Option Passenger
  unfolding text_field
  validate_passenger body = text_field 1 100 body.first_name >>=? λ first_name.
      text_field 1 100 body.last_name >>=? λ last_name.
      text_field 5 32 body.document_number >>=? λ document_number.
      text_field 2 3 body.citizenship >>=? λ citizenship. some (record {
        first_name = first_name;
        last_name = last_name;
        birth_date = body.birth_date;
        document_number = document_number;
        document_expiry = body.document_expiry;
        citizenship = citizenship;
      })

  unfoldable pub validate_order : OrderCreate → Option OrderCreate
  unfolding validate_passenger
  validate_order body = validate_passenger body.passenger >>=? λ passenger.
      some (record body { passenger = passenger })

unfoldable pub validate_login : LoginRequest → Option LoginRequest
unfolding sized
validate_login body = sized 3 255 body.email >>=? λ email.
    sized 8 256 body.password >>=? λ password. some (record { email = email; password = password })

-- `Header(alias="Idempotency-Key", min_length=8, max_length=128)`
abbrev pub idempotency_key_field : String → Option String
idempotency_key_field key = sized 8 128 key
