-- ===== src/Json.antt =====
-- The JSON values of the payloads, as Python's `json` module reads and writes them, and the `get` and
-- `_expect_*` helpers that every payload reader of src/humanhand/domain repeats. An integer may be
-- negative; a float is kept in millionths.
use human_hand.Prelude.{
  ◌≡◌, refl, arith, length, ℕ, ◌+◌, ◌*◌, Bool, false, Option, none, some, List, [], ◌∷◌, ◌==◌,
  if◌then◌else◌, Text, text_eq,
}
use human_hand.Prelude.Int.{ℤ, pos, negsuc}

mutual
  pub data Value : Type 0 where
    null : Value
    bool : Bool → Value
    int : ℤ → Value
    float : ℕ → Value
    str : Text → Value
    arr : Items → Value
    obj : Fields → Value

  pub data Items : Type 0 where
    nil : Items
    cons : Value → Items → Items

  pub data Fields : Type 0 where
    end : Fields
    field : Text → Value → Fields → Fields

-- `payload.get(key)`
unfoldable pub get : Text → Fields → Option Value
get key end = none
get key (field k v rest) = if text_eq key k then some v else get key rest

-- `{key: value for ... if key != removed}`
unfoldable pub without : Text → Fields → Fields
without removed end = end
without removed (field k v rest) =
    let others = without removed rest in if text_eq k removed then others else field k v others

-- `[f(x) for x in xs]`
unfoldable pub items {ℓ} : {A : Type ℓ} → (A → Value) → List A → Items
items f [] = nil
items f (x ∷ xs) = cons (f x) (items f xs)

-- `value == text`, false on anything but that string.
unfoldable pub is_text : Text → Option Value → Bool
is_text text (some (str t)) = text_eq t text
is_text text _ = false

-- `value == 1`. Python's `True` and `1.0` are equal to 1.
unfoldable pub is_one : Option Value → Bool
is_one (some (int (pos n))) = n == 1
is_one (some (bool b)) = b
is_one (some (float n)) = n == 1000000
is_one _ = false

-- The value, if it is a string, an integer (and no bool), a bool, a list or an object.
unfoldable pub as_str : Option Value → Option Text
as_str (some (str t)) = some t
as_str _ = none

unfoldable pub as_int : Option Value → Option ℤ
as_int (some (int z)) = some z
as_int _ = none

unfoldable pub as_bool : Option Value → Option Bool
as_bool (some (bool b)) = some b
as_bool _ = none

unfoldable pub as_arr : Option Value → Option Items
as_arr (some (arr xs)) = some xs
as_arr _ = none

unfoldable pub as_obj : Option Value → Option Fields
as_obj (some (obj fs)) = some fs
as_obj _ = none

-- `payload[key] = value`: a new key goes to the end.
unfoldable pub with_field : Text → Value → Fields → Fields
with_field key value end = field key value end
with_field key value (field k v rest) =
    let others = with_field key value rest in
    if text_eq k key then field k value rest else field k v others

-- The number of elements of a list.
unfoldable pub count : Items → ℕ
count nil = 0
count (cons x xs) = count xs + 1

-- A number that is no bool, in millionths: `float(value)`.
unfoldable pub as_number : Option Value → Option ℤ
as_number (some (int (pos n))) = some (pos (n * 1000000))
as_number (some (int (negsuc n))) = some (negsuc (n * 1000000 + 999999))
as_number (some (float n)) = some (pos n)
as_number _ = none

pub count-items {ℓ} : {A : Type ℓ} (f : A → Value) (xs : List A) → count (items f xs) ≡ length xs
unfolding count items
count-items f [] = refl
count-items f (x ∷ xs) = omega (arith, count-items f xs)

pub as_str-some : (v : Option Value) (t : Text) → as_str v ≡ some t → v ≡ some (str t)
unfolding as_str
as_str-some v t h = ground (arith, h)

pub as_bool-some : (v : Option Value) (b : Bool) → as_bool v ≡ some b → v ≡ some (bool b)
unfolding as_bool
as_bool-some v b h = ground (arith, h)
