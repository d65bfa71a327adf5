-- ===== src/RequestHash/Reordered.antt =====
-- The hash of a body does not depend on the order of its keys.
use Prim.Native.String as Text
use Prim.Native.Char.{code}
use ioka.Prelude.{◌≡◌, ◌≢◌, refl, ap, ◌∙◌, String, true, false, arith, inl, inr, Bool-cases}
use text.Mathlib.TextEquality.{Char-path}
use ioka.Bytes.{encode}
use ioka.Json.{Json, object, Fields, nil, field}
use ioka.RequestHash.{Canonical, precedes, insert_field, sort_json, sort_keys, request_hash}

precedes_trans : (a b c : String) → precedes a b ≡ true → precedes b c ≡ true → precedes a c ≡ true
unfolding precedes
precedes_trans Text.[] Text.[] c h k = cc
precedes_trans Text.[] (Text.◌∷◌ y b) Text.[] h k = cc
precedes_trans Text.[] (Text.◌∷◌ y b) (Text.◌∷◌ z c) h k = refl
precedes_trans (Text.◌∷◌ x a) Text.[] c h k = cc
precedes_trans (Text.◌∷◌ x a) (Text.◌∷◌ y b) Text.[] h k = cc
precedes_trans (Text.◌∷◌ x a) (Text.◌∷◌ y b) (Text.◌∷◌ z c) h k =
    ground (arith, precedes_trans a b c)

precedes_asymm : (a b : String) → precedes a b ≡ true → precedes b a ≡ false
unfolding precedes
precedes_asymm Text.[] Text.[] h = cc
precedes_asymm Text.[] (Text.◌∷◌ y b) h = refl
precedes_asymm (Text.◌∷◌ x a) Text.[] h = cc
precedes_asymm (Text.◌∷◌ x a) (Text.◌∷◌ y b) h = ground (arith, precedes_asymm a b)

precedes_connected : (a b : String) → precedes a b ≡ false → precedes b a ≡ false → a ≡ b
unfolding precedes
precedes_connected Text.[] Text.[] h k = refl
precedes_connected Text.[] (Text.◌∷◌ y b) h k = cc
precedes_connected (Text.◌∷◌ x a) Text.[] h k = cc
precedes_connected (Text.◌∷◌ x a) (Text.◌∷◌ y b) h k =
    let heads : code x ≡ code y = ground arith in
    let tails : a ≡ b = ground (arith, precedes_connected a b) in
    ap (λ c. Text.◌∷◌ c a) (Char-path x y heads) ∙ ap (λ t. Text.◌∷◌ y t) tails

-- Two keys are sorted in whichever order they come.
insert_comm :
    (a b : String) (x y : Json) (rest : Fields)
    → a ≢ b
    → insert_field a x (insert_field b y rest) ≡ insert_field b y (insert_field a x rest)
unfolding insert_field
insert_comm a b x y nil apart =
    ground (arith, precedes_asymm a b, precedes_asymm b a, precedes_connected a b)
insert_comm a b x y (field c z rest) apart = elim (Bool-cases (precedes a c)) [
  | inl a_c ↦ elim (Bool-cases (precedes b c)) [
    | inl b_c ↦ ground (arith, precedes_asymm a b, precedes_asymm b a, precedes_connected a b)
    | inr c_b ↦ ground (arith, precedes_trans b a c)
  ]
  | inr c_a ↦ elim (Bool-cases (precedes b c)) [
    | inl b_c ↦ ground (arith, precedes_trans a b c)
    | inr c_b ↦ ground (arith, insert_comm a b x y rest apart)
  ]
]

-- The same object with its keys in another order, here or deeper.
pub data Reordered : Fields → Fields → Type 0 where
  same : {f : Fields} → Reordered f f
  swap :
      {a b : String} {x y : Json} {f : Fields}
      → a ≢ b
      → Reordered (field a x (field b y f)) (field b y (field a x f))
  later :
      {a : String} {x : Json} {f g : Fields} → Reordered f g → Reordered (field a x f) (field a x g)
  inside :
      {a : String} {x y f : Fields}
      → Reordered x y
      → Reordered (field a (object x) f) (field a (object y) f)
  chain : {f g h : Fields} → Reordered f g → Reordered g h → Reordered f h

sort_keys-Reordered : (f g : Fields) → Reordered f g → sort_keys f ≡ sort_keys g
unfolding sort_keys
sort_keys-Reordered f g same = refl
sort_keys-Reordered f g (swap {a} {b} {x} {y} {f = r} apart) =
    insert_comm a b (sort_json x) (sort_json y) (sort_keys r) apart
sort_keys-Reordered f g (later {a} {x} {f = r} {g = t} h) =
    ap (insert_field a (sort_json x)) (sort_keys-Reordered r t h)
sort_keys-Reordered f g (inside {a} {x} {y} {f = r} h) =
    ap (λ k. insert_field a (object k) (sort_keys r)) (sort_keys-Reordered x y h)
sort_keys-Reordered f g (chain {f = p} {g = q} {h = r} h k) =
    sort_keys-Reordered p q h ∙ sort_keys-Reordered q r k

-- A body hashes the same in whichever order its keys, and those of the objects in it, are written;
-- the keys of one object differ.
pub request_hash-Reordered :
    (lib : Canonical) (f g : Fields) → Reordered f g → request_hash lib f ≡ request_hash lib g
unfolding request_hash
request_hash-Reordered lib f g h =
    ap (λ k. lib.hexdigest (encode (lib.dumps k))) (sort_keys-Reordered f g h)
