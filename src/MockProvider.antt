-- ===== src/MockProvider.antt =====
-- app/infrastructure/mock_provider.py: `MockAirlineProvider`, an instance of the provider port. The
-- digest of `hashlib` is a parameter, a function to lower-case hexadecimal text. The delays are left
-- out: a call returns. `datetime.now(UTC)` is the moment at which the provider is called.
pub mod Repeat
pub mod Prices
mod Tests
use Prim.Native.String as Text
use Prim.Native.Char.{Char, code}
use ioka.Prelude.{
  ℕ, zero, suc, ◌+◌, ◌-◌, ◌*◌, ◌/◌, ◌%◌, String, Option, none, some, List, [], ◌∷◌, ◌++◌, ◌==◌,
  ◌&&◌, not, leb, if◌then◌else◌,
}
use ioka.Prelude.Int.{pos}
use ioka.Prelude.Rows.{scalar}
use ioka.Json.{Fields, text, boolean, nil, field}
use ioka.Domain.Calendar.{Date, Datetime, add_seconds, combine}
use ioka.Domain.Provider.{
  AirlineProvider, ProviderSearchRequest, ProviderOffer, ProviderBooking, ProviderTicket, Outcome,
  returned,
}

infixr 55 ◌+++◌
abbrev pub ◌+++◌ : String → String → String
s +++ t = Text.◌++◌ s t

-- `s[:n]` on ASCII text
abbrev pub first : ℕ → String → String
first n s = Text.slice s 0 n

-- The last `width` decimal digits of a number, all of them where it has no more.
abbrev pub decimal : ℕ → ℕ → String
decimal zero n = ""
decimal (suc width) n = decimal width (n / 10) +++ Text.slice "0123456789" (n % 10) (n % 10 + 1)

-- A character of lower-case hexadecimal text, `int(s, 16)`, and `s.upper()`.
abbrev pub hex_digit : Char → ℕ
hex_digit c = if leb 97 (code c) then code c - 87 else code c - 48

abbrev pub int_from : ℕ → String → ℕ
int_from n Text.[] = n
int_from n (Text.◌∷◌ c s) = int_from (n * 16 + hex_digit c) s

abbrev pub upper : String → String
upper Text.[] = ""
upper (Text.◌∷◌ c s) = Text.slice "0123456789ABCDEF" (hex_digit c) (hex_digit c + 1) +++ upper s

-- `f"{d}"` of a date
abbrev pub iso : Date → String
iso d = decimal 4 d.year +++ "-" +++ decimal 2 d.month +++ "-" +++ decimal 2 d.day

-- The dictionaries, in the order in which their keys were stored.
pub record MockState : Type 0 where
  pub bookings : List (String × ProviderBooking)
  pub tickets : List (String × ProviderTicket)

module _ (sha256 : String → String) where
  abbrev pub seed : ProviderSearchRequest → String
  seed r = sha256 (r.origin +++ ":" +++ r.destination +++ ":" +++ iso r.departure_date)

  -- `Decimal(650_000 + int(seed[:4], 16) % 350_000)`
  abbrev pub base_price : ProviderSearchRequest → ℕ
  base_price r = 650000 + int_from 0 (first 4 (seed r)) % 350000

  unfoldable pub new_booking : String → ProviderBooking
  new_booking key =
      let digest = upper (sha256 key) in
      record {
        provider_booking_id = "BKG-" +++ first 16 digest;
        booking_reference = first 6 digest;
      }

  -- `if idempotency_key not in self._bookings: ...`, on what the dictionary holds for the key
  unfoldable pub book_found :
      Option (String × ProviderBooking) → String → MockState → ProviderBooking × MockState
  book_found (some entry) key s = (entry.1, s)
  book_found none key s =
      let booking = new_booking key in
      (booking, record s { bookings = s.bookings ++ (key, booking) ∷ [] })

  unfoldable pub mock_book : String → MockState → ProviderBooking × MockState
  unfolding book_found
  mock_book key s = book_found (scalar (λ e. e.0 == key) s.bookings) key s

module _ (sha256 : String → String) (now : Datetime) where
  -- The offer of one variant; its multiplier is in hundredths, so the product is the price in
  -- hundredths, and `quantize` has nothing to round.
  unfoldable pub variant_offer : ProviderSearchRequest → ℕ → String → String → ℕ → ProviderOffer
  variant_offer r index fare baggage multiplier = record {
    provider_offer_id = first 12 (seed sha256 r) +++ "-" +++ decimal 1 index;
    origin = r.origin;
    destination = r.destination;
    departure_at = add_seconds (index * 3 * 3600) (combine r.departure_date 8 30);
    arrival_at = add_seconds ((index * 3 + 4) * 3600 + 20 * 60) (combine r.departure_date 8 30);
    carrier = "Ioka Airways";
    flight_number = "IO" +++ decimal 3 (210 + index);
    fare_family = fare;
    baggage = baggage;
    total_amount = pos (base_price sha256 r * multiplier * r.adults);
    currency = "UZS";
    expires_at = add_seconds (15 * 60) now;
    raw_payload =
        field "source" (text "mock-air") (field "refundable" (boolean (not (fare == "BASIC"))) nil);
  }

  unfoldable pub mock_offers : ProviderSearchRequest → List ProviderOffer
  unfolding variant_offer
  mock_offers r =
      variant_offer r 0 "BASIC" "Carry-on 8 kg" 100
      ∷ variant_offer r 1 "FLEX" "Checked baggage 23 kg" 125
      ∷ variant_offer r 2 "BUSINESS" "Checked baggage 32 kg" 210
      ∷ []

  unfoldable pub new_ticket : String → String → ProviderTicket
  new_ticket booking_id key =
      let digest = sha256 (booking_id +++ ":" +++ key) in
      record {
        ticket_number = "250-" +++ decimal 10 (int_from 0 (first 10 digest) % 10000000000);
        issued_at = now;
      }

  unfoldable pub issue_found :
      Option (String × ProviderTicket) → String → String → MockState → ProviderTicket × MockState
  issue_found (some entry) booking_id key s = (entry.1, s)
  issue_found none booking_id key s =
      let ticket = new_ticket booking_id key in
      (ticket, record s { tickets = s.tickets ++ (key, ticket) ∷ [] })

  unfoldable pub mock_issue : String → String → MockState → ProviderTicket × MockState
  unfolding issue_found
  mock_issue booking_id key s = issue_found (scalar (λ e. e.0 == key) s.tickets) booking_id key s

  abbrev pub mock_provider : AirlineProvider MockState
  mock_provider = record {
    name = "mock-air";
    search = λ r s. (returned (mock_offers r), s);
    book = λ offer_id passenger key s. let (b, s') = mock_book sha256 key s in (returned b, s');
    issue = λ booking_id key s. let (t, s') = mock_issue booking_id key s in (returned t, s');
  }
