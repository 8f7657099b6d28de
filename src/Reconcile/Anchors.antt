-- ===== src/Reconcile/Anchors.antt =====
-- The backward matches, and the scan for an anchor.
use mathlib.Core.Path.{ap₂}
use low_context_inference.Base.{
  length-drop, ℕ, zero, suc, ◌+◌, ◌-◌, ◌≤◌, ◌<◌, ◌≡◌, refl, ◌∙◌, true, some, List, ◌++◌, arith,
  length, drop, All, get_elem?-append_left, get_elem?-append_right, get_elem?-drop, get_elem?-some,
  All-get_elem?, length-append,
}
use low_context_inference.Json.{Fields}
use low_context_inference.Json.Equality.{IsDict}
use low_context_inference.Reconcile.{
  equivalent_at, match_back, Anchor, anchor_scan, anchor_before_tail, scan_rounds,
}
use low_context_inference.Reconcile.Prefix.{equivalent_self}

-- The two ends move together, and not forward.
pub match_back_bounds :
    (ps ms : List Fields) (low p i : ℕ)
    → let found = match_back ps ms low p i in
      (found.0 ≤ p) × (found.1 ≤ i) × (found.0 + i ≡ found.1 + p)
unfolding match_back
match_back_bounds ps ms low zero i = (omega arith, omega arith, omega arith)
match_back_bounds ps ms low (suc p) zero = (omega arith, omega arith, omega arith)
match_back_bounds ps ms low (suc p) (suc i) = ground (arith, match_back_bounds ps ms low p i)

-- The match stops at `low` in both.
pub match_back_low :
    (ps ms : List Fields) (low p i : ℕ)
    → low ≤ p
    → low ≤ i
    → (low ≤ (match_back ps ms low p i).0) × (low ≤ (match_back ps ms low p i).1)
unfolding match_back
match_back_low ps ms low zero i h k = (omega arith, omega arith)
match_back_low ps ms low (suc p) zero h k = (omega arith, omega arith)
match_back_low ps ms low (suc p) (suc i) h k = ground (arith, match_back_low ps ms low p i)

-- What is matched is equivalent, message by message.
pub match_back_agrees :
    (ps ms : List Fields) (low p i k : ℕ)
    → (match_back ps ms low p i).0 + k < p
    → equivalent_at ps ms ((match_back ps ms low p i).0 + k) ((match_back ps ms low p i).1 + k)
      ≡ true
unfolding match_back
match_back_agrees ps ms low zero i k h = elim h [ ]
match_back_agrees ps ms low (suc p) zero k h = absurd (omega arith)
match_back_agrees ps ms low (suc p) (suc i) k h =
    ground (arith, match_back_agrees ps ms low p i k, match_back_bounds ps ms low p i)

match_back_step :
    (ps ms : List Fields) (low p i : ℕ)
    → low ≤ p
    → low ≤ i
    → equivalent_at ps ms p i ≡ true
    → match_back ps ms low (suc p) (suc i) ≡ match_back ps ms low p i
unfolding match_back
match_back_step ps ms low p i hp hi e = ground arith

-- Messages appended to the persisted history do not change a match inside the old ones.
equivalent_at-append :
    (ps xs ms : List Fields) (p i : ℕ)
    → p < length ps
    → equivalent_at (ps ++ xs) ms p i ≡ equivalent_at ps ms p i
unfolding equivalent_at
equivalent_at-append ps xs ms p i h = rw (get_elem?-append_left ps xs p h, equivalent_at)

pub match_back-append :
    (ps xs ms : List Fields) (low p i : ℕ)
    → p ≤ length ps
    → match_back (ps ++ xs) ms low p i ≡ match_back ps ms low p i
unfolding match_back
match_back-append ps xs ms low zero i h = refl
match_back-append ps xs ms low (suc p) zero h = refl
match_back-append ps xs ms low (suc p) (suc i) h =
    rw (equivalent_at-append ps xs ms p i h, match_back-append ps xs ms low p i (omega arith))

-- A tail that was appended to the history is matched against itself.
equivalent_at-rest :
    (ps ms : List Fields) (e k : ℕ)
    → All IsDict ms
    → e + k < length ms
    → equivalent_at (ps ++ drop e ms) ms (length ps + k) (e + k) ≡ true
unfolding equivalent_at
equivalent_at-rest ps ms e k d h =
    let (m, found) = get_elem?-some ms (e + k) h in
    rw
      (
        get_elem?-append_right ps (drop e ms) k ∙ get_elem?-drop e ms k ∙ found,
        found,
        equivalent_at,
      )
      (equivalent_self m (All-get_elem? IsDict ms (e + k) m d found))

pub match_back-rest :
    (ps ms : List Fields) (low e k : ℕ)
    → All IsDict ms
    → low ≤ length ps
    → low ≤ e
    → e + k ≤ length ms
    → match_back (ps ++ drop e ms) ms low (length ps + k) (e + k)
      ≡ match_back ps ms low (length ps) e
match_back-rest ps ms low e zero d hp he h =
    let a : length ps + 0 ≡ length ps = omega arith in
    let b : e + 0 ≡ e = omega arith in
    rw (a, b) (match_back-append ps (drop e ms) ms low (length ps) e (omega arith))
match_back-rest ps ms low e (suc k) d hp he h =
    let a : length ps + suc k ≡ suc (length ps + k) = omega arith in
    let b : e + suc k ≡ suc (e + k) = omega arith in
    rw (a, b)
      (match_back_step _ ms low (length ps + k) (e + k) (omega arith) (omega arith)
          (equivalent_at-rest ps ms e k d (omega arith))
        ∙ match_back-rest ps ms low e k d hp he (omega arith))

-- The whole of the longer history goes back to where the shorter one did.
pub match_back_again :
    (ps ms : List Fields) (low e : ℕ)
    → All IsDict ms
    → low ≤ length ps
    → low ≤ e
    → e ≤ length ms
    → match_back (ps ++ drop e ms) ms low (length (ps ++ drop e ms)) (length ms)
      ≡ match_back ps ms low (length ps) e
match_back_again ps ms low e d hp he h =
    let k = length ms - e in
    let left : length (ps ++ drop e ms) ≡ length ps + k =
      omega (arith, length-append ps (drop e ms), length-drop e ms) in
    let right : length ms ≡ e + k = omega arith in
    ap₂ (match_back (ps ++ drop e ms) ms low) left right
    ∙ match_back-rest ps ms low e k d hp he (omega arith)

-- What the scan returns.
pub record IsAnchor (ps ms : List Fields) (prefix : ℕ) (a : Anchor) : Type 0 where
  pub back :
      match_back ps ms prefix (length ps) a.incoming_end ≡ (a.persisted_start, a.incoming_start)
  pub moved : a.incoming_start < a.incoming_end
  pub inside : prefix < a.incoming_end

pub anchor_scan-IsAnchor :
    (ps ms : List Fields) (prefix e rounds : ℕ) {a : Anchor}
    → anchor_scan ps ms prefix e rounds ≡ some a
    → IsAnchor ps ms prefix a × (a.incoming_end ≤ e)
unfolding anchor_scan
anchor_scan-IsAnchor ps ms prefix e zero h = absurd (cc)
anchor_scan-IsAnchor ps ms prefix e (suc rounds) {a} h =
    ground (arith, anchor_scan-IsAnchor ps ms prefix (e - 1) rounds {a = a})

-- The first round succeeds if it moves.
pub anchor_scan_first :
    (ps ms : List Fields) (prefix e rounds p i : ℕ)
    → prefix < length ps
    → prefix < e
    → match_back ps ms prefix (length ps) e ≡ (p, i)
    → i < e
    → anchor_scan ps ms prefix e (suc rounds)
      ≡ some (record { persisted_start = p; incoming_start = i; incoming_end = e })
unfolding anchor_scan
anchor_scan_first ps ms prefix e rounds p i hp he back moved = ground arith

pub anchor_before_tail-IsAnchor :
    (ps ms : List Fields) (prefix : ℕ) {a : Anchor}
    → anchor_before_tail ps ms prefix ≡ some a
    → IsAnchor ps ms prefix a × (a.incoming_end ≤ length ms)
unfolding anchor_before_tail
anchor_before_tail-IsAnchor ps ms prefix {a} h =
    ground (
      arith,
      anchor_scan-IsAnchor ps ms prefix (length ms) (scan_rounds prefix (length ms)) {a = a},
    )
