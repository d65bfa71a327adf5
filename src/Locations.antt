-- ===== src/Locations.antt =====
-- app/infrastructure/locations.py.
pub mod Filter
use Prim.Native.String as Text
use Prim.Native.Char.{Char, code}
use ioka.Prelude.{
  ℕ, zero, suc, String, Bool, true, false, ◌&&◌, ◌||◌, List, [], ◌∷◌, ◌==◌, eqb, if◌then◌else◌,
}
use ioka.Prelude.Rows.{select}
use ioka.Bytes.{TextMethods}

-- a `dict` of the table
pub record Location : Type 0 where
  pub iata : String
  pub city : String
  pub airport : String
  pub country : String

abbrev pub location : String → String → String → String → Location
location iata city airport country = record {
  iata = iata;
  city = city;
  airport = airport;
  country = country;
}

abbrev pub locations : List Location
locations =
    location "TAS" "Tashkent" "Tashkent International Airport" "Uzbekistan"
    ∷ location "SKD" "Samarkand" "Samarkand International Airport" "Uzbekistan"
    ∷ location "IST" "Istanbul" "Istanbul Airport" "Turkiye"
    ∷ location "ALA" "Almaty" "Almaty International Airport" "Kazakhstan"
    ∷ location "NQZ" "Astana" "Nursultan Nazarbayev International Airport" "Kazakhstan"
    ∷ location "DXB" "Dubai" "Dubai International Airport" "United Arab Emirates"
    ∷ location "FRA" "Frankfurt" "Frankfurt Airport" "Germany"
    ∷ location "LHR" "London" "Heathrow Airport" "United Kingdom"
    ∷ []

-- `s.startswith(part)`
abbrev pub starts_with : String → String → Bool
starts_with Text.[] s = true
starts_with (Text.◌∷◌ c part) Text.[] = false
starts_with (Text.◌∷◌ c part) (Text.◌∷◌ d s) =
    let rest = starts_with part s in eqb (code c) (code d) && rest

-- `part in s`
unfoldable pub contains : String → String → Bool
contains part Text.[] = starts_with part Text.[]
contains part (Text.◌∷◌ c s) = starts_with part (Text.◌∷◌ c s) || contains part s

-- `items[:n]`
unfoldable pub take {ℓ} : {A : Type ℓ} → List A → ℕ → List A
take xs zero = []
take [] (suc n) = []
take (x ∷ xs) (suc n) = x ∷ take xs n

-- `" ".join(item.values())`
abbrev pub joined : Location → String
joined item = Text.◌++◌ item.iata (
    Text.◌∷◌ " "
      (Text.◌++◌ item.city (Text.◌∷◌ " " (Text.◌++◌ item.airport (Text.◌∷◌ " " item.country)))))

abbrev pub matches : TextMethods → String → Location → Bool
matches methods normalized item = contains normalized (methods.casefold (joined item))

unfoldable pub search_locations : TextMethods → String → List Location
search_locations methods query =
    let normalized = methods.casefold (methods.strip query) in
    if normalized == ""
    then take locations 10
    else take (select (matches methods normalized) locations) 20
