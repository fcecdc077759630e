-- ===== src/Json.antt =====
-- The values that `json.loads` returns.
use Prim.Native.Nat.{ℕ, suc}
use Prim.Native.String.{String}
use opendps.Prelude.{
  Bool, true, false, Option, some, List, [], ◌∷◌, if◌then◌else◌, nat_leb, nat_beq, ◌&&◌,
}
use opendps.Num.{ℚ, int, neg, leb}
use opendps.Dict.{Dict, string_key}
use opendps.Text.{text_leb}

-- Python's `int`.
pub data ℤ : Type 0 where
  pos : ℕ → ℤ
  negsuc : ℕ → ℤ

-- `float(n)`
unfoldable pub of_int : ℤ → ℚ
of_int (pos n) = int n
of_int (negsuc n) = neg (int (suc n))

-- An object keeps its keys in the order of the text, each once.
mutual
  pub data Json : Type 0 where
    null : Json
    boolean : Bool → Json
    integer : ℤ → Json
    number : ℚ → Json
    text : String → Json
    array : Items → Json
    object : Fields → Json

  pub data Items : Type 0 where
    nil : Items
    cons : Json → Items → Items

  pub data Fields : Type 0 where
    end : Fields
    field : String → Json → Fields → Fields

unfoldable pub items : Items → List Json
items nil = []
items (cons x xs) = x ∷ items xs

unfoldable pub entries : Fields → Dict String Json
entries end = []
entries (field key value fields) = (key, value) ∷ entries fields

unfoldable pub of_items : List Json → Items
of_items [] = nil
of_items (x ∷ xs) = cons x (of_items xs)

unfoldable pub of_entries : Dict String Json → Fields
of_entries [] = end
of_entries ((key, value) ∷ d) = field key value (of_entries d)

-- `value == n`, for the value of a `get`; `1.0` and `True` equal `1`.
unfoldable pub equals_int : ℕ → Option Json → Bool
equals_int n (some (integer (pos m))) = nat_beq m n
equals_int n (some (number q)) = leb q (int n) && leb (int n) q
equals_int n (some (boolean true)) = nat_beq 1 n
equals_int n (some (boolean false)) = nat_beq 0 n
equals_int n _ = false

-- `value == s`
unfoldable pub equals_text : String → Option Json → Bool
equals_text s (some (text t)) = string_key.beq t s
equals_text s _ = false

-- `json.dumps(value, sort_keys=True)` writes each object with its keys in order.
unfoldable pub insert_field : String → Json → Fields → Fields
insert_field key value end = field key value end
insert_field key value (field key' value' fields) =
    let rest = insert_field key value fields in
    if text_leb key key' then field key value (field key' value' fields) else field key' value' rest

unfoldable mutual
  pub sort_keys : Json → Json
  sort_keys null = null
  sort_keys (boolean b) = boolean b
  sort_keys (integer n) = integer n
  sort_keys (number q) = number q
  sort_keys (text s) = text s
  sort_keys (array xs) = array (sort_items xs)
  sort_keys (object fields) = object (sort_fields fields)

  pub sort_items : Items → Items
  sort_items nil = nil
  sort_items (cons x xs) = cons (sort_keys x) (sort_items xs)

  pub sort_fields : Fields → Fields
  sort_fields end = end
  sort_fields (field key value fields) = insert_field key (sort_keys value) (sort_fields fields)

-- `m <= n`
unfoldable pub int_leb : ℤ → ℤ → Bool
int_leb (pos m) (pos n) = nat_leb m n
int_leb (pos m) (negsuc n) = false
int_leb (negsuc m) (pos n) = true
int_leb (negsuc m) (negsuc n) = nat_leb n m
