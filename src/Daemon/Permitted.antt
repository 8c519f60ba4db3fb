-- ===== src/Daemon/Permitted.antt =====
-- What a request must hold for `dispatch` to look at something private, to stop the daemon, or to
-- succeed on a session.
use oc_computer_use.Platform.{Platform}
