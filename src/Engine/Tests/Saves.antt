-- ===== src/Engine/Tests/Saves.antt =====
-- Saves, conflicts and deletes of the article of Engine/Tests.
use den.Base.{
  ◌≡◌, ◌≢◌, refl, ap, sym, subst, String, ℕ, true, false, some, List, [], ◌∷◌, if◌then◌else◌,
}
use text.Mathlib.Text.{◌==◌}
use den.Base.Errors.{Error, not_found, returns}
use den.Base.Results.{Result, ok, err}
use den.Base.Text.{is_empty}
use den.Engine.Tx.{on_db, finish, committed, close}
use den.Engine.Document.{Base, Doc, State, CrudOpts}
use den.Engine.Document.Actions.{in_transaction, on_scope, on_part}
use den.Engine.Document.Steps.{IsSilent, Keeps, Refuses}
use den.Engine.Hooks.{
  run_hook, run_before_insert_hooks, run_before_update_hooks, run_validation_hooks,
  run_after_insert_hooks, run_after_update_hooks, run_before_delete_hooks, run_after_delete_hooks,
  run_before_soft_delete_hooks, run_after_soft_delete_hooks,
}
use den.Engine.Write.{
  wrap_result, check_tags, run_pre_persist_hooks, set_revision, compare_revisions, check_revision,
  check_and_update_revision, set_base_fields, capture_snapshot, store, set_or_check_revision,
  write_doc_core,
}
use den.Engine.Write.Stores.{IsStored}
use den.Engine.SoftDelete.{
  set_soft_deleted_at, set_soft_delete_audit_fields, soft_delete_body, soft_delete,
}
use den.Engine.Delete.{
  preflight_attachments, cleanup_attachments, hard_delete_body, delete_doc_core,
}
use den.Engine.Save.{
  is_link_write, is_link_delete, require_id, cascade_on_write, cascade_on_delete, insert_core,
  update_body, update_core, save, delete_core, save_all, each_doc, in_batch,
}
use den.Engine.Save.Stored.{save-IsStored}
use den.Engine.Save.Conflict.{no_lost_update}
use den.Engine.Save.Deleted.{delete_core-gone, delete_core-marked}
use den.Engine.Tests.{
  Row, blank, decode_row, read_row, world, articles, database, laws, plain, draws, article, start,
}

save_runs : (save database on_db articles draws plain start).0 ≡ returns tt
unfolding save update_core update_body cascade_on_write is_link_write require_id is_empty
    write_doc_core run_pre_persist_hooks run_before_update_hooks run_hook check_tags
    run_validation_hooks set_or_check_revision check_and_update_revision check_revision
    compare_revisions set_revision set_base_fields store capture_snapshot wrap_result
    run_after_update_hooks in_transaction close finish committed
save_runs = refl

keep_before : Keeps (run_before_update_hooks articles)
unfolding run_before_update_hooks run_hook
keep_before s = (refl, refl, refl)

keep_validate : Keeps (run_validation_hooks articles)
unfolding run_validation_hooks run_hook
keep_validate s = (refl, refl, refl)

silent_insert : IsSilent (run_after_insert_hooks articles)
unfolding run_after_insert_hooks run_hook
silent_insert s = refl

silent_update : IsSilent (run_after_update_hooks articles)
unfolding run_after_update_hooks run_hook
silent_update s = refl

has_id : is_empty start.doc.base.id ≡ false
unfolding is_empty
has_id = refl

no_cascade : is_link_write plain.link_rule ≡ false
unfolding is_link_write
no_cascade = refl

abbrev new_rev : String
new_rev = "r2"

stale : new_rev ≢ article.base.rev
stale e = absurd (subst (λ s. if s == new_rev then Unit else ⊥) e tt)

-- What decoding makes of an encoding.
abbrev rev_of : Result (Error String) Row → Result (Error String) String
rev_of (ok row) = ok row.3
rev_of (err e) = err e

abbrev decoded : Result (Error String) Row → Result (Error String) (Base world × ℕ)
decoded (ok row) = decode_row row blank 0
decoded (err e) = err e

no_lost_update_example :
    let after = (save database on_db articles draws plain start).1 in
    Refuses (save database on_db articles draws plain (record after { doc = article })) after
no_lost_update_example =
    no_lost_update database articles laws (λ b body bytes e. sym (ap rev_of e)) keep_before
      keep_validate silent_update refl on_db draws plain start has_id no_cascade save_runs on_db
      draws plain article refl stale no_cascade refl

save-IsStored_example :
    IsStored database articles (save database on_db articles draws plain start).1
    × ((save database on_db articles draws plain start).1.doc.base.updated_at ≡ some 7)
save-IsStored_example =
    save-IsStored database articles draws plain laws silent_insert silent_update on_db start
      save_runs

abbrev hard : CrudOpts
hard = record plain { hard_delete = true }

keep_before_delete : Keeps (run_before_delete_hooks articles)
unfolding run_before_delete_hooks run_hook
keep_before_delete s = (refl, refl, refl)

silent_after_delete : IsSilent (run_after_delete_hooks articles)
unfolding run_after_delete_hooks run_hook
silent_after_delete s = refl

silent_after_soft : IsSilent (run_after_soft_delete_hooks articles)
unfolding run_after_soft_delete_hooks run_hook
silent_after_soft s = refl

no_delete_cascade : is_link_delete plain.link_rule ≡ false
unfolding is_link_delete
no_delete_cascade = refl

hard_delete_runs : (delete_core database on_db articles draws hard start).0 ≡ returns tt
unfolding delete_core cascade_on_delete is_link_delete require_id is_empty run_before_delete_hooks
    run_hook delete_doc_core hard_delete_body preflight_attachments cleanup_attachments
    run_after_delete_hooks
hard_delete_runs = refl

delete_core-gone_example :
    read_row "a" (delete_core database on_db articles draws hard start).1.db ≡ err not_found
delete_core-gone_example =
    delete_core-gone database articles laws keep_before_delete silent_after_delete on_db draws hard
      start has_id no_delete_cascade refl hard_delete_runs

soft_delete_runs : (delete_core database on_db articles draws plain start).0 ≡ returns tt
unfolding delete_core cascade_on_delete is_link_delete require_id is_empty run_before_delete_hooks
    run_hook delete_doc_core run_before_soft_delete_hooks run_after_soft_delete_hooks
    run_after_delete_hooks soft_delete soft_delete_body set_soft_deleted_at
    set_soft_delete_audit_fields check_and_update_revision check_revision compare_revisions
    set_revision store wrap_result capture_snapshot in_transaction close finish committed
soft_delete_runs = refl

delete_core-marked_example :
    IsStored database articles (delete_core database on_db articles draws plain start).1
    × ((delete_core database on_db articles draws plain start).1.doc.base.deleted_at ≡ some 7)
delete_core-marked_example =
    delete_core-marked database articles laws silent_after_soft silent_after_delete on_db draws
      plain start has_id no_delete_cascade refl refl soft_delete_runs

abbrev two : State world (List (Doc world))
two = record {
  doc = article ∷ record article { base = record article.base { id = "" } } ∷ [];
  db = start.db;
  files = [];
}

-- Both documents of the batch are saved.
save_all_runs : (save_all database on_db articles (λ i. draws) plain two).0 ≡ returns tt
unfolding save_all in_batch each_doc on_part on_scope save insert_core update_core update_body
    cascade_on_write is_link_write require_id is_empty write_doc_core run_pre_persist_hooks
    run_before_update_hooks run_before_insert_hooks run_hook check_tags run_validation_hooks
    set_or_check_revision check_and_update_revision check_revision compare_revisions set_revision
    set_base_fields store capture_snapshot wrap_result run_after_update_hooks run_after_insert_hooks
    in_transaction close finish committed
save_all_runs = refl
