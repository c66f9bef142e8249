-- ===== src/Engine/Hooks.antt =====
-- engine/hooks.go: which methods of a document run, and in which order.
use den.Base.{Option, none, some}
use den.Base.Errors.{validation}
use den.Engine.Document.{World, Doc, Action, DocType}
use den.Engine.Document.Actions.{◌>>◌, pure, wrap_error}

module _ {w : World} where
  unfoldable pub run_hook : Option (Action w (Doc w) (Unit {0})) → Action w (Doc w) (Unit {0})
  run_hook none = pure tt
  run_hook (some call) = call

  unfoldable pub run_before_insert_hooks : DocType w → Action w (Doc w) (Unit {0})
  run_before_insert_hooks ty = do run_hook ty.hooks.before_insert; run_hook ty.hooks.before_save

  -- The error of the document's own `Validate` is an ErrValidation.
  unfoldable pub run_validation_hooks : DocType w → Action w (Doc w) (Unit {0})
  run_validation_hooks ty s = wrap_error validation (run_hook ty.hooks.validate s)

  unfoldable pub run_after_insert_hooks : DocType w → Action w (Doc w) (Unit {0})
  run_after_insert_hooks ty = do run_hook ty.hooks.after_insert; run_hook ty.hooks.after_save

  unfoldable pub run_before_update_hooks : DocType w → Action w (Doc w) (Unit {0})
  run_before_update_hooks ty = do run_hook ty.hooks.before_update; run_hook ty.hooks.before_save

  unfoldable pub run_after_update_hooks : DocType w → Action w (Doc w) (Unit {0})
  run_after_update_hooks ty = do run_hook ty.hooks.after_update; run_hook ty.hooks.after_save

  unfoldable pub run_before_delete_hooks : DocType w → Action w (Doc w) (Unit {0})
  run_before_delete_hooks ty = run_hook ty.hooks.before_delete

  unfoldable pub run_after_delete_hooks : DocType w → Action w (Doc w) (Unit {0})
  run_after_delete_hooks ty = run_hook ty.hooks.after_delete

  unfoldable pub run_before_soft_delete_hooks : DocType w → Action w (Doc w) (Unit {0})
  run_before_soft_delete_hooks ty = run_hook ty.hooks.before_soft_delete

  unfoldable pub run_after_soft_delete_hooks : DocType w → Action w (Doc w) (Unit {0})
  run_after_soft_delete_hooks ty = run_hook ty.hooks.after_soft_delete
