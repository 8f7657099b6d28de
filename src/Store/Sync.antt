-- ===== src/Store/Sync.antt =====
-- `reconcile_history`: what it stores, that a replay stores nothing, and what a conflict reports.
use mathlib.Core.Path.{subst}
use native.Mathlib.Decide.{dec_lt}
use low_context_inference.Base.{
  ℕ, zero, suc, ◌+◌, ◌≤◌, ◌<◌, min, ◌≡◌, ◌≢◌, refl, sym, ap, ◌∙◌, true, false, Option, none, some,
  String, List, [], ◌∷◌, arith, length, get_elem?, get_elem?-some, All, Option-cases, ◌⊎◌, inl, inr,
}
use low_context_inference.Json.{Fields}
use low_context_inference.Json.Equality.{IsDict}
use low_context_inference.Runtime.{Runtime}
use low_context_inference.Reconcile.{
  Mode, new_tail, reconcile_projection, conflict, equivalent_at, ReconciliationResult,
}
use low_context_inference.Reconcile.Outcomes.{Agree, Accounts, fork, reconcile_projection-Accounts}
use low_context_inference.Reconcile.Idempotence.{IsSettled, reconcile_projection_again}
use low_context_inference.Store.Sql.{Database, IsLawful}
use low_context_inference.Store.{
  insert_messages, synced, diverged, is_conflict, divergence, written, first_difference, sync,
  reconcile_history,
}
use low_context_inference.Store.Aware.{aware_sync, aware_reconcile_history}
use low_context_inference.Store.History.{Appends, insert_messages-Appends, ensure-Appends}

-- A conflict has a first place at which the two histories differ.
abbrev pub Fork : List Fields → List Fields → ℕ → Type 0
Fork ps ms k =
    (k < length ps) × (k < length ms) × Agree ps ms 0 0 k × (equivalent_at ps ms k k ≡ false)

conflict-Fork :
    (ps ms : List Fields) (r : ReconciliationResult)
    → Accounts ps ms r
    → r.mode ≡ conflict
    → (k : ℕ) × Fork ps ms k
conflict-Fork ps ms r (fork k a b c d) h = (k, (a, b, c, d))
conflict-Fork ps ms r _ h = absurd (cc)

first_difference_lem :
    (ps ms : List Fields) (k c rounds : ℕ)
    → Agree ps ms 0 0 k
    → equivalent_at ps ms k k ≡ false
    → c ≤ k
    → k < c + rounds
    → first_difference ps ms c rounds ≡ k
unfolding first_difference
first_difference_lem ps ms k c zero a e h lt = absurd (omega arith)
first_difference_lem ps ms k c (suc rounds) a e h lt = elim (dec_lt c k) [
  | yes less ↦
      (let same : 0 + c ≡ c = omega arith in
        let at_c : equivalent_at ps ms c c ≡ true = rw same at (a c less) in
        rw at_c (first_difference_lem ps ms k (suc c) rounds a e less (omega arith)))
  | no more ↦ (let here : c ≡ k = omega arith in rw (here, e) refl)
]

pub is_conflict-no : (m : Mode) → m ≢ conflict → is_conflict m ≡ false
is_conflict-no conflict h = absurd (h refl)
is_conflict-no _ h = refl

past-end {ℓ} : {A : Type ℓ} (xs : List A) (n : ℕ) → length xs ≤ n → get_elem? xs n ≡ none
past-end [] n h = refl
past-end (x ∷ xs) zero h = absurd (omega arith)
past-end (x ∷ xs) (suc n) h = past-end xs n (omega arith)

short :
    (ps ms : List Fields)
    → let n = min (length ps) (length ms) in (get_elem? ps n ≡ none) ⊎ (get_elem? ms n ≡ none)
short ps ms = elim (dec_lt (length ps) (length ms)) [
  | yes h ↦ inl (past-end ps _ (omega arith))
  | no h ↦ inr (past-end ms _ (omega arith))
]

module _ (py : Runtime) (db : Database) where
  open db use {State, RowId, fetch_messages}

  written-synced :
      (w : Option (List RowId × State)) {ids : List RowId} {s' : State}
      → written py db w ≡ synced ids s'
      → w ≡ some (ids, s')
  written-synced none h = absurd (cc)
  written-synced (some (i, t)) h = cc

  -- The history of `c` in `s`, and what a reconciliation with `ms` says of it.
  abbrev pub verdict : String → State → List Fields → ReconciliationResult
  verdict c s ms = reconcile_projection (fetch_messages c s) ms

  sync-conflict :
      (c : String) (metadata : Fields) (ms : List Fields) (s : State)
      → (verdict c s ms).mode ≡ conflict
      → (k : ℕ) × Fork (fetch_messages c s) ms k
        × (sync py db c metadata ms s ≡ divergence py db (fetch_messages c s) ms k)
  unfolding sync
  sync-conflict c metadata ms s h =
      let ps = fetch_messages c s in
      let (k, (hp, hm, agree, differ)) =
        conflict-Fork ps ms (verdict c s ms) (reconcile_projection-Accounts ps ms) h in
      (
        k,
        (hp, hm, agree, differ),
        rw
            (
              h,
              first_difference_lem ps ms k 0 (min (length ps) (length ms)) agree differ
                  (omega arith) (omega arith),
            )
            refl,
      )

  pub sync-accepted :
      (c : String) (metadata : Fields) (ms : List Fields) (s : State)
      → (verdict c s ms).mode ≢ conflict
      → sync py db c metadata ms s
        ≡ written py db (insert_messages py db c metadata (new_tail (verdict c s ms) ms) s)
  unfolding sync
  sync-accepted c metadata ms s h = rw (is_conflict-no _ h)

  pub nothing_new :
      (c : String) (metadata : Fields) {ms : List Fields} (s : State)
      → ms ≡ []
      → written py db (insert_messages py db c metadata ms s) ≡ synced [] s
  unfolding insert_messages
  nothing_new c metadata s e = rw (e, insert_messages)

  pub after_ensure :
      (c : String) (metadata : Fields) (ms : List Fields) {s s1 : State}
      → db.ensure_conversation c s ≡ some s1
      → reconcile_history py db c metadata ms s ≡ sync py db c metadata ms s1
  unfolding reconcile_history
  after_ensure c metadata ms e = rw (e, reconcile_history)

  pub aware_after_ensure :
      (c : String) (metadata : Fields) (ms : List Fields) {s s1 : State}
      → db.ensure_conversation c s ≡ some s1
      → aware_reconcile_history py db c metadata ms s ≡ aware_sync py db c metadata ms s1
  unfolding aware_reconcile_history
  aware_after_ensure c metadata ms e = rw (e, aware_reconcile_history)

  aware_conflict :
      (c : String) (metadata : Fields) (ms : List Fields) (s : State)
      → (verdict c s ms).mode ≡ conflict
      → let ps = fetch_messages c s in
        aware_sync py db c metadata ms s ≡ divergence py db ps ms (min (length ps) (length ms))
  unfolding aware_sync
  aware_conflict c metadata ms s h = rw h

  module _ (law : IsLawful db) where
    pub ensured :
        (c : String) (ms : List Fields) {s s1 : State}
        → db.ensure_conversation c s ≡ some s1
        → verdict c s1 ms ≡ verdict c s ms
    ensured c ms {s} {s1} e =
        ap (λ ps. reconcile_projection ps ms) ((law.ensure-SameMessages c s s1 e).messages c)

    -- A history that conflicts is rejected with the first index at which it differs from the stored
    -- one, and with both messages at that index; every message before it agrees.
    pub reconcile_history-conflict :
        (c : String) (metadata : Fields) (ms : List Fields) (s s1 : State)
        → db.ensure_conversation c s ≡ some s1
        → (verdict c s ms).mode ≡ conflict
        → (k : ℕ) × (p : Fields) × (m : Fields) × (reconcile_history py db c metadata ms s
            ≡ diverged k (some p) (some m))
          × Fork (fetch_messages c s) ms k
          × (get_elem? (fetch_messages c s) k ≡ some p)
          × (get_elem? ms k ≡ some m)
    reconcile_history-conflict c metadata ms s s1 e h =
        let ps = fetch_messages c s in
        let same = (law.ensure-SameMessages c s s1 e).messages c in
        let (k, (hp, hm, agree, differ), done) =
          sync-conflict c metadata ms s1 (rw (ensured c ms e) h) in
        let fork : Fork ps ms k = subst (λ l. Fork l ms k) same (hp, hm, agree, differ) in
        let (p, at_p) = get_elem?-some ps k fork.0 in
        let (m, at_m) = get_elem?-some ms k hm in
        (k, p, m, after_ensure c metadata ms e ∙ done ∙ rw (same, at_p, at_m), fork, at_p, at_m)

    -- A history that does not conflict adds its new tail to the conversation, and nothing else.
    pub reconcile_history-Appends :
        (c : String) (metadata : Fields) (ms : List Fields) (s : State) {ids : List RowId}
        {s' : State}
        → (verdict c s ms).mode ≢ conflict
        → reconcile_history py db c metadata ms s ≡ synced ids s'
        → Appends py db law c (new_tail (verdict c s ms) ms) s s'
    unfolding reconcile_history
    reconcile_history-Appends c metadata ms s {ids} {s'} ok h =
        elim (Option-cases (db.ensure_conversation c s)) [
          | inl e ↦ absurd (ground arith)
          | inr (s1, e) ↦
              (let synced1 : sync py db c metadata ms s1 ≡ synced ids s' =
                  sym (after_ensure c metadata ms e) ∙ h in
                let ok1 : (verdict c s1 ms).mode ≢ conflict = rw (ensured c ms e) ok in
                let stored =
                  written-synced _ (sym (sync-accepted c metadata ms s1 ok1) ∙ synced1) in
                rw (← ensured c ms e) (
                  ensure-Appends py db law c _ e
                    (insert_messages-Appends py db law c metadata _ s1 stored).0))
        ]

    -- The same history, sent again, is accepted and stores nothing.
    pub reconcile_history_again :
        (c : String) (metadata : Fields) (ms : List Fields) (s s' s'' : State) {ids : List RowId}
        → All IsDict ms
        → (verdict c s ms).mode ≢ conflict
        → reconcile_history py db c metadata ms s ≡ synced ids s'
        → db.ensure_conversation c s' ≡ some s''
        → (reconcile_history py db c metadata ms s' ≡ synced [] s'')
          × (fetch_messages c s'' ≡ fetch_messages c s')
    reconcile_history_again c metadata ms s s' s'' d ok h e =
        let ps = fetch_messages c s in
        let added = (reconcile_history-Appends c metadata ms s ok h).here in
        let again = (law.ensure-SameMessages c s' s'' e).messages c in
        let settled =
          subst (λ l. IsSettled (reconcile_projection l ms) ms) (sym (again ∙ added))
            (reconcile_projection_again ps ms d ok) in
        (
          after_ensure c metadata ms e
              ∙ sync-accepted c metadata ms s'' settled.0
              ∙ nothing_new c metadata s'' settled.1,
          again,
        )

    -- The store that the application uses reports another index for the same conflict: the length of
    -- the shorter history. That is past the first difference, and one of the two messages is missing.
    pub aware_reconcile_history-conflict :
        (c : String) (metadata : Fields) (ms : List Fields) (s s1 : State)
        → db.ensure_conversation c s ≡ some s1
        → (verdict c s ms).mode ≡ conflict
        → let ps = fetch_messages c s in
          let n = min (length ps) (length ms) in
          (aware_reconcile_history py db c metadata ms s
            ≡ diverged n (get_elem? ps n) (get_elem? ms n))
          × ((get_elem? ps n ≡ none) ⊎ (get_elem? ms n ≡ none))
          × ((k : ℕ) × (k < n) × Fork ps ms k)
    aware_reconcile_history-conflict c metadata ms s s1 e h =
        let ps = fetch_messages c s in
        let (k, differ) =
          conflict-Fork ps ms (verdict c s ms) (reconcile_projection-Accounts ps ms) h in
        (
          aware_after_ensure c metadata ms e
              ∙ aware_conflict c metadata ms s1 (rw (ensured c ms e) h)
              ∙ rw ((law.ensure-SameMessages c s s1 e).messages c),
          short ps ms,
          (k, omega arith, differ),
        )
