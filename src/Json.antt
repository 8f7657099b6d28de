-- ===== src/Json.antt =====
-- JSON values as Python's `json` module builds them, and the operations of `dict`, `list` and
-- `str` that the sources apply to them. Numbers are integers; the sources compare no others.
pub mod Equality
pub mod Dicts
use Prim.Native.Char.{code}
use low_context_inference.Base.{
  ℕ, suc, ◌+◌, Bool, true, false, not, ◌&&◌, Option, none, some, String, str_eq, find?, List, [],
  ◌∷◌, ◌==◌, is_some, if◌then◌else◌, leb, map,
}

-- `negsuc n` is -(n + 1).
pub data ℤ : Type 0 where
  pos : ℕ → ℤ
  negsuc : ℕ → ℤ

mutual
  pub data Value : Type 0 where
    null : Value
    str : String → Value
    int : ℤ → Value
    bool : Bool → Value
    obj : Fields → Value
    arr : Items → Value

  -- the entries of a `dict`, in insertion order
  pub data Fields : Type 0 where
    end : Fields
    field : (key : String) (value : Value) (rest : Fields) → Fields

  -- a `list`
  pub data Items : Type 0 where
    nil : Items
    cons : (first : Value) (rest : Items) → Items

-- `k in d`, with the value
unfoldable pub lookup : String → Fields → Option Value
lookup k end = none
lookup k (field j v d) = if str_eq j k then some v else lookup k d

-- `d.get(k)`
unfoldable pub get : Fields → String → Value
get d k = elim (lookup k d) [ none ↦ null | some v ↦ v ]

-- `d.pop(k, None)`
unfoldable pub pop : String → Fields → Fields
pop k end = end
pop k (field j v d) = if str_eq j k then d else field j v (pop k d)

-- `d[k] = v`: in place, or at the end
unfoldable pub put : String → Value → Fields → Fields
put k v end = field k v end
put k v (field j w d) = if str_eq j k then field j v d else field j w (put k v d)

unfoldable pub size : Fields → ℕ
size end = 0
size (field k v d) = suc (size d)

-- `bool(v)`
unfoldable pub truthy : Value → Bool
truthy null = false
truthy (bool b) = b
truthy (int (pos n)) = not (n == 0)
truthy (int (negsuc n)) = true
truthy (str s) = not (str_eq s "")
truthy (arr nil) = false
truthy (arr (cons v xs)) = true
truthy (obj end) = false
truthy (obj (field k v d)) = true

-- `v is True`
unfoldable pub is_true : Value → Bool
is_true (bool b) = b
is_true _ = false

-- `v == s` for a text `s`
unfoldable pub is_text : Value → String → Bool
is_text (str t) s = str_eq t s
is_text _ s = false

abbrev pub to_list : Items → List Value
to_list nil = []
to_list (cons v xs) = v ∷ to_list xs

abbrev pub of_list : List Value → Items
of_list [] = nil
of_list (v ∷ vs) = cons v (of_list vs)

unfoldable pub int_eq : ℤ → ℤ → Bool
int_eq (pos a) (pos b) = a == b
int_eq (negsuc a) (negsuc b) = a == b
int_eq _ _ = false

unfoldable pub bool_eq : Bool → Bool → Bool
bool_eq true b = b
bool_eq false b = not b

-- `True == 1` and `False == 0` hold in Python.
abbrev pub of_bool : Bool → ℤ
of_bool true = pos 1
of_bool false = pos 0

-- `a == b`. Two dicts are equal if they are as long and each entry of the first is in the second.
unfoldable mutual
  unfolding int_eq bool_eq lookup size

  pub equal : Value → Value → Bool
  equal null null = true
  equal (bool a) (bool b) = bool_eq a b
  equal (bool a) (int b) = int_eq (of_bool a) b
  equal (int a) (bool b) = int_eq a (of_bool b)
  equal (int a) (int b) = int_eq a b
  equal (str a) (str b) = str_eq a b
  equal (arr a) (arr b) = equal_items a b
  equal (obj a) (obj b) = size a == size b && entries_in a b
  equal _ _ = false

  pub equal_items : Items → Items → Bool
  equal_items nil nil = true
  equal_items (cons a xs) (cons b ys) = equal a b && equal_items xs ys
  equal_items _ _ = false

  pub entries_in : Fields → Fields → Bool
  entries_in end d = true
  entries_in (field k v e) d =
      (elim (lookup k d) [ none ↦ false | some w ↦ equal v w ]) && entries_in e d

-- `a == b` of two dicts
unfoldable pub equal_dicts : Fields → Fields → Bool
unfolding equal
equal_dicts a b = equal (obj a) (obj b)

abbrev pub code_points : String → List ℕ
code_points String.[] = []
code_points (String.◌∷◌ first rest) = code first ∷ code_points rest

abbrev lower_code : ℕ → ℕ
lower_code c = if leb 65 c && leb c 90 then c + 32 else c

abbrev same_codes : List ℕ → List ℕ → Bool
same_codes [] [] = true
same_codes (a ∷ as') (b ∷ bs) = a == b && same_codes as' bs
same_codes _ _ = false

-- `s.lower() == t` for an ASCII `t`
unfoldable pub lower_equal : String → String → Bool
lower_equal s t = same_codes (map lower_code (code_points s)) (code_points t)

-- `t in s`
unfoldable pub contains : String → String → Bool
contains s t = is_some (find? s t)
