-- ===== src/Daemon/Tokens.antt =====
-- Who may look at what: validate_session_id of cu-daemon/src/jsonrpc.rs, verify_trace_access and
-- verify_any_token of cu-runtime/src/runtime.rs, check_access of cu-trace/src/manifest.rs.
use oc_computer_use.Prelude.{
  ℕ, ◌==◌, ltb, leb, length, Option, none, some, Bool, true, false, not, ◌&&◌, ◌||◌, List, [], ◌∷◌,
  if◌then◌else◌,
}
use oc_computer_use.Errors.{Text, CuError, Result, ok, err}
use oc_computer_use.Platform.{Platform}
use oc_computer_use.Session.{Session, verify, verify_read_tokens}
use oc_computer_use.Actions.{is_nonempty}
use oc_computer_use.Runtime.{Runtime, get_session}
use oc_computer_use.Act.Admit.{no_text}
use oc_computer_use.Daemon.{TraceAccessManifest}

-- A letter, a digit, `-` or `_`.
abbrev pub is_id_byte : ℕ → Bool
is_id_byte c =
    leb 97 c && leb c 122 || leb 65 c && leb c 90 || leb 48 c && leb c 57 || c == 45 || c == 95

unfoldable pub all_id_bytes : List ℕ → Bool
all_id_bytes [] = true
all_id_bytes (c ∷ cs) = is_id_byte c && all_id_bytes cs

unfoldable pub validate_session_id : List ℕ → Result (Unit {0})
unfolding all_id_bytes
validate_session_id id =
    if not (is_nonempty id) || ltb 64 (length id) || not (all_id_bytes id)
    then err CuError.invalid_params
    else ok tt

-- The refusal of tokens that open nothing.
unfoldable pub token_refusal : Option Text → Option Text → CuError
token_refusal none none = CuError.observation_token_required
token_refusal _ _ = CuError.invalid_observation_token

abbrev pub by_manifest : Option Text → Option Text → Option Bool → Result (Unit {0})
by_manifest observation control none = err CuError.session_not_found
by_manifest observation control (some true) = ok tt
by_manifest observation control (some false) = err (token_refusal observation control)

abbrev pub accepts : Result (Unit {0}) → Bool
accepts (ok _) = true
accepts (err _) = false

module _ (P : Platform) where
  abbrev pub opens : Text → Option (List ℕ) → Bool
  opens token none = false
  opens token (some hash) = verify P hash token

  unfoldable pub any_opens : Text → List (Option (List ℕ)) → Bool
  any_opens token [] = false
  any_opens token (h ∷ hs) = opens token h || any_opens token hs

  -- The empty text is never a token.
  abbrev pub token_opens : Option Text → List (Option (List ℕ)) → Bool
  token_opens none hs = false
  token_opens (some t) hs = not (t == no_text) && any_opens t hs

  unfoldable pub check_access :
      Option TraceAccessManifest → Text → Option Text → Option Text → Option Bool
  unfolding any_opens
  check_access none session_id observation control = none
  check_access (some m) session_id observation control =
      if ltb 1 m.format_version
        || not (m.session_id == session_id)
        || not (is_nonempty m.access_token_hashes)
      then some false
      else some (
          token_opens control m.access_token_hashes
          || token_opens observation m.access_token_hashes)

  unfoldable pub verify_trace_access :
      Option TraceAccessManifest → Text → Option Text → Option Text → Runtime P → Result (Unit {0})
  unfolding check_access token_refusal
  verify_trace_access m id observation control rt = elim (get_session P id rt) [
    | ok s ↦ verify_read_tokens P s observation control
    | err _ ↦ by_manifest observation control (check_access m id observation control)
  ]

  unfoldable pub any_session_opens : Option Text → Option Text → List (Text × Session P) → Bool
  any_session_opens observation control [] = false
  any_session_opens observation control ((_, s) ∷ ss) =
      accepts (verify_read_tokens P s observation control)
      || any_session_opens observation control ss

  unfoldable pub verify_any_token : Option Text → Option Text → Runtime P → Result (Unit {0})
  unfolding any_session_opens token_refusal
  verify_any_token observation control rt =
      if any_session_opens observation control rt.sessions
      then ok tt
      else err (token_refusal observation control)
