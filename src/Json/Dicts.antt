-- ===== src/Json/Dicts.antt =====
-- What `put` and `pop` leave in a dict.
use low_context_inference.Base.{◌≡◌, refl, none, some, String, str_eq, eq_iff, arith, if◌then◌else◌}
use low_context_inference.Json.{Value, Fields, end, field, lookup, pop, put}
use low_context_inference.Json.Equality.{IsJson, IsDict}

pub lookup-put :
    (k j : String) (v : Value) (d : Fields)
    → lookup j (put k v d) ≡ (if str_eq k j then some v else lookup j d)
unfolding lookup put
lookup-put k j v end = refl
lookup-put k j v (field i w d) =
    ground (arith, eq_iff k j, eq_iff i k, eq_iff i j, lookup-put k j v d)

lookup-pop_fresh : (k j : String) (d : Fields) → lookup j d ≡ none → lookup j (pop k d) ≡ none
unfolding lookup pop
lookup-pop_fresh k j end h = refl
lookup-pop_fresh k j (field i w d) h =
    ground (arith, eq_iff i k, eq_iff i j, lookup-pop_fresh k j d)

pub pop-IsDict : (k : String) (d : Fields) → IsDict d → IsDict (pop k d)
unfolding pop
pop-IsDict k end h = tt
pop-IsDict k (field i w d) h = ground (arith, lookup-pop_fresh k i d, pop-IsDict k d)

pub put-IsDict : (k : String) (v : Value) (d : Fields) → IsJson v → IsDict d → IsDict (put k v d)
unfolding put lookup
put-IsDict k v end j h = (refl, j, tt)
put-IsDict k v (field i w d) j h =
    ground (arith, eq_iff i k, eq_iff k i, lookup-put k i v d, put-IsDict k v d)
