-- ===== src/Daemon/Rights.antt =====
-- What a call of `dispatch` must hold.
use oc_computer_use.Prelude.{◌⊎◌, ℕ, ◌≡◌, ◌≢◌, Option, none, some, Bool, true, false, List}
use oc_computer_use.Errors.{Text, ok}
use oc_computer_use.Platform.{Platform}
use oc_computer_use.Session.{verify}
use oc_computer_use.Requests.{RequestKey}
use oc_computer_use.Exec.{Reply}
use oc_computer_use.Act.{RuntimeConfig, Machine}
use oc_computer_use.Runtime.Rights.{CanRead, CanControl, MayAct}
use oc_computer_use.Inspect.{Codec}
use oc_computer_use.Daemon.{TraceParams, Call, RpcResult, Services, Host}
use oc_computer_use.Daemon.Known.{view, IsKnown}
use oc_computer_use.Daemon.Told.{IsOk}
use oc_computer_use.Errors.{CuError, err}
use oc_computer_use.Session.{Session, verify_read_tokens}
use oc_computer_use.Runtime.{get_session}
use oc_computer_use.Daemon.Names.{IsTraceId}
use oc_computer_use.Daemon.Scoped.{IsVouched}

module _ (P : Platform) (config : RuntimeConfig P) (M : Machine P) (codec : Codec) (V : Services P)
    (admin_hash : List ℕ) (first : List RequestKey → Option RequestKey) where
  -- The token of the daemon's manager.
  abbrev pub IsAdmin : Option Text → Type 0
  IsAdmin none = ⊥
  IsAdmin (some presented) = verify P admin_hash presented ≡ true

  -- An id that can name a trace; and tokens that open the live session of that id or, where there is
  -- none, are recorded in the manifest of that id.
  abbrev pub IsReader : TraceParams → Host P → Type 0
  IsReader p h =
      IsTraceId (V.bytes p.session_id)
      × (((s : Session P) × (get_session P p.session_id h.runtime ≡ ok s)
            × (verify_read_tokens P s p.observation_token p.control_token ≡ ok tt))
          ⊎ ((e : CuError) × (get_session P p.session_id h.runtime ≡ err e)
              × IsVouched P (V.manifest p.session_id) p.session_id p.observation_token
                  p.control_token))

  -- The reading of the live session that is named.
  abbrev pub IsObserver : Option Text → Option Text → Option Text → Host P → Type 0
  IsObserver none observation control h = ⊥
  IsObserver (some id) observation control h = CanRead P id observation control h.runtime

  -- What a call must hold to look at something private, to stop the daemon, or to succeed on a session.
  unfoldable pub Permitted : Call P → Host P → Type 0
  Permitted (Call.runtime_desktop_layout (some p)) h = IsKnown P p h
  Permitted (Call.runtime_pointer (some p)) h = IsKnown P p h
  Permitted (Call.runtime_active_application (some p)) h = IsKnown P p h
  Permitted (Call.runtime_shutdown (some token)) h = IsAdmin token
  Permitted (Call.trace_admin_list (some p)) h = IsAdmin p.admin_token
  Permitted (Call.trace_list (some p)) h = IsReader p h
  Permitted (Call.trace_get (some p)) h = IsReader p h
  Permitted (Call.trace_export (some p)) h = IsReader p h
  Permitted (Call.trace_replay (some p)) h = IsReader p h
  Permitted (Call.trace_summaries (some p)) h = IsReader p h
  Permitted (Call.computer_observe (some p)) h =
      IsObserver p.session_id p.observation_token p.control_token h
  Permitted (Call.computer_inspect (some p)) h =
      CanRead P p.session_id p.observation_token p.control_token h.runtime
  Permitted (Call.computer_act (some p)) h = CanControl P p.session_id p.control_token h.runtime
  Permitted (Call.computer_cancel (some p)) h = CanControl P p.session_id p.control_token h.runtime
  Permitted (Call.computer_session (some p)) h =
      MayAct P p.action p.session_id p.control_token p.observation_token h.runtime
  Permitted _ h = ⊥

  -- The methods on a session.
  unfoldable pub is_on_session : Call P → Bool
  is_on_session (Call.computer_session _) = true
  is_on_session (Call.computer_observe _) = true
  is_on_session (Call.computer_inspect _) = true
  is_on_session (Call.computer_act _) = true
  is_on_session (Call.computer_cancel _) = true
  is_on_session _ = false

  -- Something private was looked at, or the daemon stopped; or a method on a session succeeded.
  abbrev pub Reveals : Call P → Host P → Reply (RpcResult P) × Host P → Type 0
  Reveals call h out = (view P out.1 ≢ view P h) ⊎ ((is_on_session call ≡ true) × IsOk out.0)
