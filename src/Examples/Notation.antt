-- ===== src/Examples/Notation.antt =====
-- A notation for JSON values in postfix order: a concrete instance of the texts that the development
-- takes as a parameter, for runs at concrete inputs.
use Prim.Native.Char.{Char, code}
use outbox_fanout.Prelude.{
  ℕ, zero, suc, String, Bool, true, false, ◌≡◌, refl, ◌∙◌, Option, none, some, List, [], ◌∷◌, ◌==◌,
  if◌then◌else◌,
}
use outbox_fanout.Json.{
  Value, null, bool, num, real, str, arr, obj, Items, empty_list, element, Fields, empty_object,
  entry,
}
use outbox_fanout.Formats.{Formats, Decimal}

-- What the reader has on its stack.
pub data Item : Type 0 where
  value : Value → Item
  text : String → Item
  nat : ℕ → Item
  items : Items → Item
  fields : Fields → Item

abbrev pub Stack : Type 0
Stack = List Item

abbrev put : Char → Stack → Stack
put c (text s ∷ st) = text (String.◌∷◌ c s) ∷ st
put c st = []

abbrev next : Stack → Stack
next (nat n ∷ st) = nat (suc n) ∷ st
next st = []

abbrev to_num : Stack → Stack
to_num (nat n ∷ st) = value (num n) ∷ st
to_num st = []

abbrev to_real : Stack → Stack
to_real (text s ∷ st) = value (real s) ∷ st
to_real st = []

abbrev to_str : Stack → Stack
to_str (text s ∷ st) = value (str s) ∷ st
to_str st = []

abbrev to_cons : Stack → Stack
to_cons (value v ∷ items vs ∷ st) = items (element v vs) ∷ st
to_cons st = []

abbrev to_field : Stack → Stack
to_field (value v ∷ text k ∷ fields fs ∷ st) = fields (entry k v fs) ∷ st
to_field st = []

abbrev to_arr : Stack → Stack
to_arr (items vs ∷ st) = value (arr vs) ∷ st
to_arr st = []

abbrev to_obj : Stack → Stack
to_obj (fields fs ∷ st) = value (obj fs) ∷ st
to_obj st = []

-- One mark of the notation, by its character's number.
abbrev mark : ℕ → Stack → Stack
mark c st =
    if c == code "n"
    then value null ∷ st
    else if c == code "t"
    then value (bool true) ∷ st
    else if c == code "f"
    then value (bool false) ∷ st
    else if c == code "e"
    then text String.[] ∷ st
    else if c == code "z"
    then nat 0 ∷ st
    else if c == code "s"
    then next st
    else if c == code "d"
    then to_num st
    else if c == code "r"
    then to_real st
    else if c == code "x"
    then to_str st
    else if c == code "["
    then items empty_list ∷ st
    else if c == code ","
    then to_cons st
    else if c == code "]"
    then to_arr st
    else if c == code "{"
    then fields empty_object ∷ st
    else if c == code ":"
    then to_field st
    else if c == code "}"
    then to_obj st
    else st

-- After a quote the next character stands for itself.
unfoldable pub read : String → Bool → Stack → Stack
read String.[] quoted st = st
read (String.◌∷◌ c s) true st = read s false (put c st)
read (String.◌∷◌ c s) false st = read s (code c == code "q") (mark (code c) st)

-- Each writer puts its text in front of the rest.
unfoldable pub write_text : String → String → String
write_text String.[] rest = String.◌∷◌ "e" rest
write_text (String.◌∷◌ c s) rest = write_text s (String.◌∷◌ "q" (String.◌∷◌ c rest))

unfoldable pub write_nat : ℕ → String → String
write_nat zero rest = String.◌∷◌ "z" rest
write_nat (suc n) rest = write_nat n (String.◌∷◌ "s" rest)

unfoldable mutual
  unfolding write_nat write_text

  pub write : Value → String → String
  write null rest = String.◌∷◌ "n" rest
  write (bool true) rest = String.◌∷◌ "t" rest
  write (bool false) rest = String.◌∷◌ "f" rest
  write (num n) rest = write_nat n (String.◌∷◌ "d" rest)
  write (real s) rest = write_text s (String.◌∷◌ "r" rest)
  write (str s) rest = write_text s (String.◌∷◌ "x" rest)
  write (arr vs) rest = write_items vs (String.◌∷◌ "]" rest)
  write (obj fs) rest = write_fields fs (String.◌∷◌ "}" rest)

  pub write_items : Items → String → String
  write_items empty_list rest = String.◌∷◌ "[" rest
  write_items (element v vs) rest = write_items vs (write v (String.◌∷◌ "," rest))

  pub write_fields : Fields → String → String
  write_fields empty_object rest = String.◌∷◌ "{" rest
  write_fields (entry k v fs) rest = write_fields fs (write_text k (write v (String.◌∷◌ ":" rest)))

read-write_text :
    (s rest : String) (st : Stack)
    → read (write_text s rest) false st ≡ read rest false (text s ∷ st)
unfolding read write_text
read-write_text String.[] rest st = refl
read-write_text (String.◌∷◌ c s) rest st = read-write_text s _ st

read-write_nat :
    (n : ℕ) (rest : String) (st : Stack)
    → read (write_nat n rest) false st ≡ read rest false (nat n ∷ st)
unfolding read write_nat
read-write_nat zero rest st = refl
read-write_nat (suc n) rest st = read-write_nat n _ st

mutual
  unfolding read write write_items write_fields

  read-write :
      (v : Value) (rest : String) (st : Stack)
      → read (write v rest) false st ≡ read rest false (value v ∷ st)
  read-write null rest st = refl
  read-write (bool true) rest st = refl
  read-write (bool false) rest st = refl
  read-write (num n) rest st = read-write_nat n _ st
  read-write (real s) rest st = read-write_text s _ st
  read-write (str s) rest st = read-write_text s _ st
  read-write (arr vs) rest st = read-write_items vs _ st
  read-write (obj fs) rest st = read-write_fields fs _ st

  read-write_items :
      (vs : Items) (rest : String) (st : Stack)
      → read (write_items vs rest) false st ≡ read rest false (items vs ∷ st)
  read-write_items empty_list rest st = refl
  read-write_items (element v vs) rest st = read-write_items vs _ st ∙ read-write v _ _

  read-write_fields :
      (fs : Fields) (rest : String) (st : Stack)
      → read (write_fields fs rest) false st ≡ read rest false (fields fs ∷ st)
  read-write_fields empty_object rest st = refl
  read-write_fields (entry k v fs) rest st =
      read-write_fields fs _ st ∙ (read-write_text k _ _ ∙ read-write v _ _)

abbrev as_nat : Stack → Option ℕ
as_nat (nat n ∷ []) = some n
as_nat st = none

abbrev as_decimal : Stack → Option Decimal
as_decimal (nat p ∷ nat n ∷ []) = some (record { coefficient = n; places = p })
as_decimal st = none

abbrev as_value : Stack → Option Value
as_value (value v ∷ []) = some v
as_value st = none

abbrev shown : Value → String
shown (str s) = s
shown v = write v ""

pub nat_roundtrip : (n : ℕ) → as_nat (read (write_nat n "") false []) ≡ some n
unfolding read
nat_roundtrip n = rw (read-write_nat n "" []) refl

pub decimal_roundtrip :
    (d : Decimal)
    → as_decimal (read (write_nat d.coefficient (write_nat d.places "")) false []) ≡ some d
unfolding read
decimal_roundtrip d =
    rw
      (
        read-write_nat d.coefficient (write_nat d.places "") [],
        read-write_nat d.places "" (nat d.coefficient ∷ []),
      )
      refl

pub value_roundtrip : (v : Value) → as_value (read (write v "") false []) ≡ some v
unfolding read
value_roundtrip v = rw (read-write v "" []) refl

unfoldable pub notation : Formats
unfolding read write write_nat
notation = record {
  uuid_text = λ u. write_nat u "";
  uuid_of = λ s. as_nat (read s false []);
  decimal_text = λ d. write_nat d.coefficient (write_nat d.places "");
  decimal_of = λ s. as_decimal (read s false []);
  decimal_of_real = λ s. none;
  decimal_of_items = λ vs. none;
  str_of = shown;
  isoformat = λ t. write_nat t "";
  dumps = λ v. write v "";
  loads = λ s. as_value (read s false []);
  uuid_of-uuid_text = nat_roundtrip;
  decimal_of-decimal_text = decimal_roundtrip;
  loads-dumps = value_roundtrip;
  str_of-str = λ s. refl;
}
