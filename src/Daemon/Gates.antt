-- ===== src/Daemon/Gates.antt =====
-- The guards of `dispatch` in cu-daemon/src/jsonrpc.rs, and what stands behind them.
use oc_computer_use.Prelude.{
  ℕ, zero, suc, ◌%◌, ltb, Option, none, some, true, ◌||◌, List, [], ◌∷◌, if◌then◌else◌,
}
use oc_computer_use.Errors.{Text, CuError, Result, ok, err}
use oc_computer_use.Platform.{Platform}
use oc_computer_use.Session.{Session, verify}
use oc_computer_use.Runtime.{Runtime, Outcome, get_session}
use oc_computer_use.Exec.{answer, fail, checks, performs, ◌>>=◌, ◌>>◌}
use oc_computer_use.Act.{RuntimeConfig, Machine, Step}
use oc_computer_use.Act.Batch.{desk_for, leave}
use oc_computer_use.Daemon.{
  CapabilityTokenParams, TraceParams, TraceAdminListParams, Access, RpcResult, Services, Serve,
}
use oc_computer_use.Daemon.Tokens.{validate_session_id, verify_trace_access, verify_any_token}

-- `list.truncate`.
unfoldable pub truncate {ℓ} : {A : Type ℓ} → ℕ → List A → List A
truncate zero xs = []
truncate (suc n) [] = []
truncate (suc n) (x ∷ xs) = x ∷ truncate n xs

abbrev pub limited : Option ℕ → List ℕ → List ℕ
limited none xs = xs
limited (some n) xs = truncate n xs

-- The protocol is version 3, the least and the greatest that a client may have.
abbrev pub protocol_version : ℕ
protocol_version = 3

-- `n.as_u64().unwrap_or(u64::MAX) as u32`: modulo 2 ^ 32.
unfoldable pub advertised : Option ℕ → ℕ
advertised none = 4294967295
advertised (some n) = n % 4294967296

-- The check of the version that a client may advertise.
unfoldable pub version_result : Option (Option ℕ) → Result (Unit {0})
unfolding advertised
version_result none = ok tt
version_result (some n) =
    let got = advertised n in
    if ltb got protocol_version || ltb protocol_version got
    then err (CuError.protocol_version_mismatch protocol_version (some got))
    else ok tt

-- A failed export is a trace error.
abbrev pub trace_error : Result ℕ → Result ℕ
trace_error (ok n) = ok n
trace_error (err _) = err CuError.trace

module _ (P : Platform) where
  -- `parse_params`, then the rest.
  abbrev pub parsed : {A : Type 0} → Option A → (A → Serve P (RpcResult P)) → Serve P (RpcResult P)
  parsed none f = fail CuError.invalid_params
  parsed (some p) f = f p

  -- An operation of the runtime alone.
  unfoldable pub on_runtime : {A : Type 0} → (Runtime P → Outcome P A) → Serve P A
  on_runtime f h = performs (λ h. let (r, rt) = f h.runtime in (r, record h { runtime = rt })) h

  -- A look at something private.
  unfoldable pub looks : {A : Type 0} → Access → Result A → Serve P A
  looks a r h = performs (λ h. (r, record h { accesses = a ∷ h.accesses })) h

  unfoldable pub with_capability : CapabilityTokenParams → Access → Result ℕ → Serve P (RpcResult P)
  unfolding looks
  with_capability p a r = do
    checks (λ h. verify_any_token P p.observation_token p.control_token h.runtime)
    n ← looks a r
    answer (RpcResult.content n)

  abbrev pub read_file : (Text → Result ℕ) → TraceParams → Serve P (RpcResult P)
  read_file f p = do
    n ← looks (Access.trace_file p.session_id) (f p.session_id)
    answer (RpcResult.content n)

module _ (P : Platform) (config : RuntimeConfig P) (M : Machine P) where
  -- An operation on a session, which is found by its id first.
  abbrev pub at_desk : {A : Type 0} → Step P A → Session P → Serve P A
  at_desk m s h =
      let (r, d) = m (desk_for P config M s h.human h.now h.runtime) in
      (r, record h { runtime = leave P config M d; human = d.world.human; now = d.world.now })

  unfoldable pub on_session : {A : Type 0} → Text → Step P A → Serve P A
  on_session id m = do s ← checks (λ h. get_session P id h.runtime); at_desk m s

module _ (P : Platform) (admin_hash : List ℕ) where
  unfoldable pub admin_check : Option Text → Result (Unit {0})
  admin_check none = err CuError.daemon_admin_token_required
  admin_check (some presented) =
      if verify P admin_hash presented then ok tt else err CuError.invalid_daemon_admin_token

  unfoldable pub shut_down : Option Text → Serve P (RpcResult P)
  unfolding admin_check
  shut_down token = do
    checks (λ _. admin_check token)
    performs (λ h. (ok RpcResult.shutting_down, record h { app_shutdown = true }))

module _ (P : Platform) (V : Services P) where
  -- The guards of every method on a session's trace.
  unfoldable pub with_trace : TraceParams → Serve P (RpcResult P) → Serve P (RpcResult P)
  with_trace p rest = do
    checks (λ _. validate_session_id (V.bytes p.session_id))
    checks (λ h.
        verify_trace_access P (V.manifest p.session_id) p.session_id p.observation_token
          p.control_token h.runtime)
    rest

  abbrev pub listed : TraceParams → Serve P (RpcResult P)
  listed p = do
    list ← looks P (Access.session_traces p.session_id) (V.list_session_traces p.session_id)
    answer (RpcResult.contents (limited p.limit list))

module _ (P : Platform) (V : Services P) (admin_hash : List ℕ) where
  unfoldable pub admin_list : TraceAdminListParams → Serve P (RpcResult P)
  unfolding admin_check looks
  admin_list p = do
    checks (λ _. admin_check P admin_hash p.admin_token)
    list ← looks P Access.all_traces V.list_traces
    answer (RpcResult.contents (limited p.limit list))
