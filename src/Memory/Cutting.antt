-- ===== src/Memory/Cutting.antt =====
-- The units that `_chunk_new_turns` cuts a conversation into.
use low_context_inference.Base.{
  ◌≡◌, refl, ap, ◌∙◌, true, false, not, ◌&&◌, List, [], ◌∷◌, ◌++◌, append_assoc, All, Bool-cases,
  inl, inr, arith,
}
use low_context_inference.Memory.{MessageRow}
use low_context_inference.Memory.Turns.{is_user, is_empty, split_units}

abbrev pub concat : List (List MessageRow) → List MessageRow
concat [] = []
concat (unit ∷ units) = unit ++ concat units

abbrev pub NoUser : List MessageRow → Type 0
NoUser = All (λ r. is_user r ≡ false)

-- at least one row, and no user's message after the first
abbrev pub IsTurn : List MessageRow → Type 0
IsTurn [] = ⊥
IsTurn (r ∷ rows) = NoUser rows

abbrev pub OpensWithUser : List MessageRow → Type 0
OpensWithUser [] = ⊥
OpensWithUser (r ∷ rows) = is_user r ≡ true

abbrev pub TurnsAfter : List (List MessageRow) → Type 0
TurnsAfter [] = Unit
TurnsAfter (unit ∷ units) = All OpensWithUser units

NoUser-snoc :
    (rows : List MessageRow) (r : MessageRow)
    → NoUser rows
    → is_user r ≡ false
    → NoUser (rows ++ r ∷ [])
NoUser-snoc [] r h e = (e, tt)
NoUser-snoc (s ∷ rows) r h e = (h.0, NoUser-snoc rows r h.1 e)

concat-split_units :
    (current rows : List MessageRow) → concat (split_units current rows) ≡ current ++ rows
unfolding split_units
concat-split_units [] [] = refl
concat-split_units (c ∷ current) [] = refl
concat-split_units current (r ∷ rows) = elim (Bool-cases (is_user r && not (is_empty current))) [
  | inl e ↦ rw (e, split_units) (ap (λ rest. current ++ rest) (concat-split_units (r ∷ []) rows))
  | inr e ↦
      rw (e, split_units)
        (concat-split_units (current ++ r ∷ []) rows ∙ append_assoc current (r ∷ []) rows)
]

abbrev AreTurns : List (List MessageRow) → Type 0
AreTurns units = All IsTurn units × TurnsAfter units

abbrev FirstOpens : List (List MessageRow) → Type 0
FirstOpens [] = Unit
FirstOpens (unit ∷ units) = OpensWithUser unit

first-opens :
    (c : MessageRow) (current rows : List MessageRow)
    → is_user c ≡ true
    → FirstOpens (split_units (c ∷ current) rows)
unfolding split_units
first-opens c current [] h = h
first-opens c current (r ∷ rows) h = elim (Bool-cases (is_user r)) [
  | inl e ↦ rw (e, split_units) h
  | inr e ↦ rw (e, split_units) (first-opens c (current ++ r ∷ []) rows h)
]

-- with an open unit that is a turn
open-AreTurns :
    (c : MessageRow) (current rows : List MessageRow)
    → NoUser current
    → AreTurns (split_units (c ∷ current) rows)
unfolding split_units
open-AreTurns c current [] h = ((h, tt), tt)
open-AreTurns c current (r ∷ rows) h = elim (Bool-cases (is_user r)) [
  | inl e ↦
      rw (e, split_units)
        (
          (h, (open-AreTurns r [] rows tt).0),
          opens (split_units (r ∷ []) rows) (first-opens r [] rows e)
              (open-AreTurns r [] rows tt).1,
        )
  | inr e ↦
      rw (e, split_units) (open-AreTurns c (current ++ r ∷ []) rows (NoUser-snoc current r h e))
]
  where
    opens :
        (units : List (List MessageRow))
        → FirstOpens units
        → TurnsAfter units
        → All OpensWithUser units
    opens [] f t = tt
    opens (unit ∷ units) f t = (f, t)

-- The units are the rows in order, none is empty, only the first row of a unit may be the user's, and
-- every unit but the first starts with a message of the user.
split_units-AreTurns :
    (rows : List MessageRow)
    → (concat (split_units [] rows) ≡ rows)
      × All IsTurn (split_units [] rows)
      × TurnsAfter (split_units [] rows)
unfolding split_units
split_units-AreTurns [] = (refl, tt, tt)
split_units-AreTurns (r ∷ rows) =
    let e : (is_user r && false) ≡ false = ground arith in
    rw e (
      concat-split_units (r ∷ []) rows,
      (open-AreTurns r [] rows tt).0,
      (open-AreTurns r [] rows tt).1,
    )
