-- ===== src/Store/Replays.antt =====
-- Replays of a history against the store that the application uses,
-- src/context_proxy/conversation/projection_store.py.
use mathlib.Core.Path.{subst}
use low_context_inference.Base.{
  ◌≡◌, ◌≢◌, refl, sym, ◌∙◌, some, String, List, [], All, Option-cases, inl, inr,
}
use low_context_inference.Json.{Fields}
use low_context_inference.Json.Equality.{IsDict}
use low_context_inference.Runtime.{Runtime}
use low_context_inference.Reconcile.{reconcile_projection, conflict}
use low_context_inference.Reconcile.Idempotence.{IsSettled, reconcile_projection_again}
use low_context_inference.Store.Sql.{Database, IsLawful}
use low_context_inference.Store.{synced, sync, reconcile_history}
use low_context_inference.Store.Aware.{aware_sync, aware_reconcile_history}
use low_context_inference.Store.Sync.{
  verdict, is_conflict-no, sync-accepted, nothing_new, after_ensure, aware_after_ensure, ensured,
  reconcile_history-Appends,
}

module _ (py : Runtime) (db : Database) (law : IsLawful db) where
  open db use {State, RowId, fetch_messages}

  aware_sync-accepted :
      (c : String) (metadata : Fields) (ms : List Fields) (s : State)
      → (verdict py db c s ms).mode ≢ conflict
      → aware_sync py db c metadata ms s ≡ sync py db c metadata ms s
  unfolding aware_sync sync
  aware_sync-accepted c metadata ms s h = rw (is_conflict-no _ h) refl

  -- The two stores differ in conflicts only.
  aware_same :
      (c : String) (metadata : Fields) (ms : List Fields) (s : State)
      → (verdict py db c s ms).mode ≢ conflict
      → aware_reconcile_history py db c metadata ms s ≡ reconcile_history py db c metadata ms s
  unfolding aware_reconcile_history reconcile_history
  aware_same c metadata ms s h = elim (Option-cases (db.ensure_conversation c s)) [
    | inl e ↦ rw (e, aware_reconcile_history, reconcile_history) refl
    | inr (s1, e) ↦
        aware_after_ensure py db c metadata ms e
        ∙ aware_sync-accepted c metadata ms s1 (rw (ensured py db law c ms e) h)
        ∙ sym (after_ensure py db c metadata ms e)
  ]

  -- A history that was accepted is accepted again in any later state with the same messages.
  pub aware_replay :
      (c : String) (metadata again : Fields) (ms : List Fields) (s s' t t' : State)
      {ids : List RowId}
      → All IsDict ms
      → (verdict py db c s ms).mode ≢ conflict
      → aware_reconcile_history py db c metadata ms s ≡ synced ids s'
      → fetch_messages c t ≡ fetch_messages c s'
      → db.ensure_conversation c t ≡ some t'
      → (aware_reconcile_history py db c again ms t ≡ synced [] t')
        × (fetch_messages c t' ≡ fetch_messages c s')
  aware_replay c metadata again ms s s' t t' d ok h same e =
      let stored = sym (aware_same c metadata ms s ok) ∙ h in
      let added = (reconcile_history-Appends py db law c metadata ms s ok stored).here in
      let kept = (law.ensure-SameMessages c t t' e).messages c in
      let settled =
        subst (λ l. IsSettled (reconcile_projection l ms) ms) (sym (kept ∙ same ∙ added))
          (reconcile_projection_again (fetch_messages c s) ms d ok) in
      (
        aware_after_ensure py db c again ms e
            ∙ aware_sync-accepted c again ms t' settled.0
            ∙ sync-accepted py db c again ms t' settled.0
            ∙ nothing_new py db c again t' settled.1,
        kept ∙ same,
      )
