-- ===== src/Engine/Save/Reload.antt =====
-- A saved document, read again or reverted to.
use den.Engine.Document.{Base}
