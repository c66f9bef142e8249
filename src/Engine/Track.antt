-- ===== src/Engine/Track.antt =====
-- engine/track.go: snapshots, whether a document has changed since, and going back.
use den.Base.{Bool, false, not, Option, none, some, if◌then◌else◌}
use den.Base.Errors.{Error, no_snapshot, encode_failed}
use den.Base.Results.{Result, ok, err, after}
use den.Engine.Document.{World, Doc, DocType}
use den.Engine.Write.{wrap_result, capture_snapshot}

module _ {w : World} where
  -- `new(T)`
  unfoldable pub zero_doc : DocType w → Doc w
  zero_doc ty = record { base = ty.zero_base; body = ty.zero_body; snapshot = none }

  unfoldable pub decode_with_snapshot :
      DocType w → w.Bytes → Doc w → Result (Error w.Failure) (Doc w)
  decode_with_snapshot ty bytes d =
      after (ty.decode bytes d.base d.body)
        (λ (base, body). ok (capture_snapshot ty bytes (record d { base = base; body = body })))

  -- The snapshot of a type that has them.
  unfoldable pub trackable : DocType w → Doc w → Option w.Bytes
  trackable ty d = if ty.is_tracked then d.snapshot else none

  unfoldable pub differs :
      DocType w
      → (w.Bytes → w.Bytes → Bool)
      → Doc w
      → Option w.Bytes
      → Result (Error w.Failure) Bool
  unfolding wrap_result
  differs ty equal d none = ok false
  differs ty equal d (some snapshot) =
      after (wrap_result encode_failed (ty.encode d.base d.body))
        (λ current. ok (not (equal snapshot current)))

  -- `equal` is `bytes.Equal`.
  unfoldable pub is_changed :
      DocType w → (w.Bytes → w.Bytes → Bool) → Doc w → Result (Error w.Failure) Bool
  unfolding differs
  is_changed ty equal d = differs ty equal d (trackable ty d)

  unfoldable pub revert_to : DocType w → Option w.Bytes → Result (Error w.Failure) (Doc w)
  unfolding decode_with_snapshot
  revert_to ty none = err no_snapshot
  revert_to ty (some snapshot) = decode_with_snapshot ty snapshot (zero_doc ty)

  unfoldable pub revert : DocType w → Doc w → Result (Error w.Failure) (Doc w)
  unfolding revert_to
  revert ty d = revert_to ty (trackable ty d)
