-- ===== src/Store/Aware.antt =====
-- src/context_proxy/conversation/projection_store.py: the store that the application uses. Its
-- `reconcile_history` repeats the base class's, but for the index that a conflict reports.
use low_context_inference.Base.{min, none, some, String, List, length, if◌then◌else◌}
use low_context_inference.Json.{Fields}
use low_context_inference.Runtime.{Runtime}
use low_context_inference.Reconcile.{reconcile_projection, new_tail}
use low_context_inference.Store.Sql.{Database}
use low_context_inference.Store.{Outcome, failed, is_conflict, divergence, written, insert_messages}

module _ (py : Runtime) (db : Database) where
  open db use {State}

  unfoldable pub aware_sync : String → Fields → List Fields → State → Outcome py db
  aware_sync conversation metadata incoming s =
      let persisted = db.fetch_messages conversation s in
      let r = reconcile_projection persisted incoming in
      if is_conflict r.mode
      then divergence py db persisted incoming (min (length persisted) (length incoming))
      else written py db (insert_messages py db conversation metadata (new_tail r incoming) s)

  unfoldable pub aware_reconcile_history : String → Fields → List Fields → State → Outcome py db
  unfolding aware_sync
  aware_reconcile_history conversation metadata incoming s =
      elim (db.ensure_conversation conversation s) [
        | none ↦ failed
        | some s' ↦ aware_sync conversation metadata incoming s'
      ]
