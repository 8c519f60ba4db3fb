-- ===== src/Daemon/Scoped.antt =====
-- Whose tokens open a trace: verify_trace_access of cu-runtime/src/runtime.rs with check_access of
-- cu-trace/src/manifest.rs.
use mathlib.Core.List.{Memᴰ}
use oc_computer_use.Prelude.{
  ℕ, ◌≡◌, ◌≢◌, ◌≤◌, refl, ◌⊎◌, inl, inr, Option, none, some, Bool, true, false, List, [], ◌∷◌,
  arith, Bool-cases,
}
use oc_computer_use.Errors.{Text, CuError, Result, ok, err}
use oc_computer_use.Platform.{Platform}
use oc_computer_use.Session.{Session, verify, verify_read_tokens}
use oc_computer_use.Runtime.{Runtime, get_session}
use oc_computer_use.Act.Admit.{no_text}
use oc_computer_use.Daemon.{TraceAccessManifest}
use oc_computer_use.Daemon.Tokens.{
  any_opens, token_opens, check_access, verify_trace_access, by_manifest,
}

module _ (P : Platform) where
  -- A text that is not empty, and whose digest the manifest records.
  abbrev pub IsRecorded : Option Text → List (Option (List ℕ)) → Type 0
  IsRecorded token hs =
      (t : Text) × (hash : List ℕ) × (token ≡ some t)
      × (t ≢ no_text)
      × Memᴰ (some hash) hs
      × (verify P hash t ≡ true)

  -- A manifest of this session whose version is known, and one of the two tokens.
  abbrev pub IsVouched : Option TraceAccessManifest → Text → Option Text → Option Text → Type 0
  IsVouched manifest id observation control =
      (m : TraceAccessManifest) × (manifest ≡ some m)
      × (m.session_id ≡ id)
      × (m.format_version ≤ 1)
      × (IsRecorded control m.access_token_hashes ⊎ IsRecorded observation m.access_token_hashes)

  any_opens-Recorded :
      (t : Text) (hs : List (Option (List ℕ)))
      → any_opens P t hs ≡ true
      → (hash : List ℕ) × Memᴰ (some hash) hs × (verify P hash t ≡ true)
  unfolding any_opens
  any_opens-Recorded t [] h = absurd (cc)
  any_opens-Recorded t (none ∷ hs) h =
      let (hash, m, v) = any_opens-Recorded t hs h in (hash, Memᴰ.tail m, v)
  any_opens-Recorded t (some x ∷ hs) h = elim (Bool-cases (verify P x t)) [
    | inl opened ↦ (x, Memᴰ.head refl, opened)
    | inr closed ↦
        (let (hash, m, v) = any_opens-Recorded t hs (ground arith) in (hash, Memᴰ.tail m, v))
  ]

  token_opens-IsRecorded :
      (token : Option Text) (hs : List (Option (List ℕ)))
      → token_opens P token hs ≡ true
      → IsRecorded token hs
  token_opens-IsRecorded none hs h = absurd (cc)
  token_opens-IsRecorded (some t) hs h =
      let (hash, m, v) = any_opens-Recorded t hs (ground arith) in
      (t, hash, refl, ground arith, m, v)

  check_access-IsVouched :
      (manifest : Option TraceAccessManifest) (id : Text) (observation control : Option Text)
      → check_access P manifest id observation control ≡ some true
      → IsVouched manifest id observation control
  unfolding check_access
  check_access-IsVouched none id observation control h = absurd (cc)
  check_access-IsVouched (some m) id observation control h = (
    m,
    refl,
    ground arith,
    ground arith,
    elim (Bool-cases controlled) [
      | inl opened ↦ inl (token_opens-IsRecorded control m.access_token_hashes opened)
      | inr closed ↦ inr (token_opens-IsRecorded observation m.access_token_hashes (ground arith))
    ],
  )
    where
      controlled : Bool
      controlled = token_opens P control m.access_token_hashes

  -- Whose traces tokens open, when they open any: those of a live session that takes one of them, or,
  -- when there is no such session, those of the session whose readable manifest, of a known version
  -- and under the same id, records the digest of one of them, which is not empty.
  pub verify_trace_access-IsScoped :
      (manifest : Option TraceAccessManifest) (id : Text) (observation control : Option Text)
      (rt : Runtime P)
      → verify_trace_access P manifest id observation control rt ≡ ok tt
      → ((s : Session P) × (get_session P id rt ≡ ok s)
          × (verify_read_tokens P s observation control ≡ ok tt))
        ⊎ ((e : CuError) × (get_session P id rt ≡ err e)
            × IsVouched manifest id observation control)
  unfolding verify_trace_access
  verify_trace_access-IsScoped manifest id observation control rt h =
      go (get_session P id rt) refl h
    where
      vouched : (r : Option Bool) → by_manifest observation control r ≡ ok tt → r ≡ some true
      vouched none h = absurd (cc)
      vouched (some true) h = refl
      vouched (some false) h = absurd (cc)

      go :
          (r : Result (Session P))
          → get_session P id rt ≡ r
          → elim r as (λ _. Result (Unit {0})) [
            | ok s ↦ verify_read_tokens P s observation control
            | err _ ↦
                by_manifest observation control (check_access P manifest id observation control)
          ]
            ≡ ok tt
          → ((s : Session P) × (get_session P id rt ≡ ok s)
              × (verify_read_tokens P s observation control ≡ ok tt))
            ⊎ ((e : CuError) × (get_session P id rt ≡ err e)
                × IsVouched manifest id observation control)
      go (ok s) found h = inl (s, found, h)
      go (err e) missing h = inr (
        e,
        missing,
        check_access-IsVouched manifest id observation control
            (vouched (check_access P manifest id observation control) h),
      )
