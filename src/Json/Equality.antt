-- ===== src/Json/Equality.antt =====
-- Python's `==` on JSON values is reflexive, where no dict has a key twice.
use low_context_inference.Base.{◌≡◌, refl, true, false, none, some, String, eq_refl, eq_iff, arith}
use low_context_inference.Json.{
  pos, negsuc, Value, null, bool, int, str, arr, obj, Items, nil, cons, Fields, end, field, lookup,
  equal, equal_items, entries_in, equal_dicts,
}

abbrev mutual
  pub IsJson : Value → Type 0
  IsJson (arr xs) = AreJson xs
  IsJson (obj d) = IsDict d
  IsJson _ = Unit

  pub AreJson : Items → Type 0
  AreJson nil = Unit
  AreJson (cons v xs) = IsJson v × AreJson xs

  -- no key twice, here and in the values: what `json.loads` builds
  pub IsDict : Fields → Type 0
  IsDict end = Unit
  IsDict (field k v d) = (lookup k d ≡ none) × IsJson v × IsDict d

-- every entry of `e` is an entry of `d`
abbrev IsIn : Fields → Fields → Type 0
IsIn d end = Unit
IsIn d (field k v e) = (lookup k d ≡ some v) × IsIn d e

IsIn-field :
    (k : String) (v : Value) (d e : Fields) → lookup k e ≡ none → IsIn d e → IsIn (field k v d) e
unfolding lookup
IsIn-field k v d end fresh h = tt
IsIn-field k v d (field j w e) fresh h =
    (ground (arith, eq_iff j k, eq_iff k j), IsIn-field k v d e (ground arith) h.1)

IsIn-self : (d : Fields) → IsDict d → IsIn d d
unfolding lookup
IsIn-self end h = tt
IsIn-self (field k v d) h = (rw eq_refl refl, IsIn-field k v d d h.0 (IsIn-self d h.2))

mutual
  unfolding equal

  equal_self : (v : Value) → IsJson v → equal v v ≡ true
  equal_self null h = refl
  equal_self (bool true) h = refl
  equal_self (bool false) h = refl
  equal_self (int (pos n)) h = ground arith
  equal_self (int (negsuc n)) h = ground arith
  equal_self (str s) h = eq_refl s
  equal_self (arr xs) h = equal_items_self xs h
  equal_self (obj d) h = ground (arith, entries_in_self d d h (IsIn-self d h))

  equal_items_self : (xs : Items) → AreJson xs → equal_items xs xs ≡ true
  equal_items_self nil h = refl
  equal_items_self (cons v xs) h = ground (arith, equal_self v h.0, equal_items_self xs h.1)

  entries_in_self : (e d : Fields) → IsDict e → IsIn d e → entries_in e d ≡ true
  entries_in_self end d h i = refl
  entries_in_self (field k v e) d h i =
      rw i.0 (ground (arith, equal_self v h.1, entries_in_self e d h.2 i.1))

pub equal_dicts_self : (d : Fields) → IsDict d → equal_dicts d d ≡ true
unfolding equal_dicts
equal_dicts_self d h = equal_self (obj d) h
