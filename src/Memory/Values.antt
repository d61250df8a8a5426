-- ===== src/Memory/Values.antt =====
-- JSON values as app/llm_installation/memory_reservations.py reads them: its `_non_negative_int` and
-- `_int_mapping`, and what `x or default`, `.get` and a loop do on a value of any type.
use dotori.Prelude.{
  ℕ, zero, String, Bool, true, false, not, Option, some, none, List, [], ◌∷◌, map, if◌then◌else◌,
  Result, ok, err,
}
use dotori.Prelude.Dicts.{Dict, get}
use dotori.Prelude.Text.{nonempty}

pub data Error : Type 0 where
  type_error : Error

pub data ℤ : Type 0 where
  pos negsuc : ℕ → ℤ

mutual
  pub data Json : Type 0 where
    null : Json
    boolean : Bool → Json
    number : ℤ → Json
    real text : String → Json
    items : Items → Json
    object : Entries → Json

  pub data Items : Type 0 where
    no_items : Items
    item : Json → Items → Items

  pub data Entries : Type 0 where
    no_entries : Entries
    entry : String → Json → Entries → Entries

pub data File : Type 0 where
  missing unreadable : File
  content : Json → File

-- `str(x)` of a value that is no text, `int(x)` of one that is no whole number with `none` for the
-- exceptions that are caught, whether a real number is zero, and the characters of a text.
pub record Python : Type 0 where
  pub str : Json → String
  pub int : Json → Option ℤ
  pub is_zero : String → Bool
  pub characters : String → List String

unfoldable pub items_of : Items → List Json
items_of no_items = []
items_of (item x xs) = x ∷ items_of xs

unfoldable pub to_items : List Json → Items
to_items [] = no_items
to_items (x ∷ xs) = item x (to_items xs)

unfoldable pub entries_of : Entries → Dict Json
entries_of no_entries = []
entries_of (entry k x xs) = (k, x) ∷ entries_of xs

unfoldable pub to_entries : Dict Json → Entries
to_entries [] = no_entries
to_entries ((k, x) ∷ xs) = entry k x (to_entries xs)

-- `payload.get(key)` of an object
unfoldable pub get_key : String → Json → Json
get_key key (object fields) = elim (get key (entries_of fields)) [ none ↦ null | some x ↦ x ]
get_key key _ = null

module _ (python : Python) where
  unfoldable pub is_true : Json → Bool
  is_true null = false
  is_true (boolean b) = b
  is_true (number (pos zero)) = false
  is_true (number _) = true
  is_true (real r) = not (python.is_zero r)
  is_true (text s) = nonempty s
  is_true (items no_items) = false
  is_true (items (item x xs)) = true
  is_true (object no_entries) = false
  is_true (object (entry k x xs)) = true

  abbrev pub str_of : Json → String
  str_of (text s) = s
  str_of x = python.str x

  -- `str(x or default)`
  unfoldable pub text_or : Json → String → String
  text_or x default = if is_true x then str_of x else default

  abbrev pub clipped : Option ℤ → ℕ
  clipped (some (pos n)) = n
  clipped _ = 0

  unfoldable pub non_negative_int : Json → ℕ
  non_negative_int null = 0
  non_negative_int (boolean b) = 0
  non_negative_int (number z) = clipped (some z)
  non_negative_int x = clipped (python.int x)

  unfoldable pub int_entries : Entries → Dict ℕ
  int_entries no_entries = []
  int_entries (entry k x xs) = (k, non_negative_int x) ∷ int_entries xs

  -- `_int_mapping`
  unfoldable pub int_mapping : Json → Dict ℕ
  int_mapping (object fields) = int_entries fields
  int_mapping _ = []

  unfoldable pub keys_of : Entries → List Json
  keys_of no_entries = []
  keys_of (entry k x xs) = text k ∷ keys_of xs

  -- `for value in (x or [])`: a true value that is no sequence raises a `TypeError`.
  unfoldable pub elements : Json → Result Error (List Json)
  elements (items xs) = ok (items_of xs)
  elements (object fields) = ok (keys_of fields)
  elements (text s) = ok (map text (python.characters s))
  elements _ = err type_error

  unfoldable pub iterate : Json → Result Error (List Json)
  iterate x = if is_true x then elements x else ok []
