-- ===== src/Act/Emits.antt =====
-- What must have held if an act asked for input.
use oc_computer_use.Platform.{Platform}
