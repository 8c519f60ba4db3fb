-- ===== src/Examples/Stores.antt =====
-- The theorems about the registry of requests, the frames and the stale-frame check, at concrete
-- inputs.
use oc_computer_use.Session.{DisplayBounds}
use oc_computer_use.Prelude.{
  ℕ, zero, suc, Option, none, some, true, false, List, [], ◌∷◌, ◌≡◌, ◌⊎◌, refl, arith, nat_eq,
  lookup, contains, ◌<◌, if◌then◌else◌, ◌↔◌, add, length,
}
use oc_computer_use.Errors.{ok}
use oc_computer_use.Platform.Sample.{sample, no_tokens}
use oc_computer_use.Requests.{
  RequestKey, key_eq, RequestHandle, RequestRegistry, register, unregister, cancel, max_tombstones,
}
use oc_computer_use.Requests.Precise.{IsCancelled, IsForeign, IsUnknown, cancel_precise}
use oc_computer_use.Requests.Tombstones.{
  IsIterator, IsBounded, operations-IsBounded, done, cancel_before_register, evicted_cancel_lost,
}
use oc_computer_use.Frames.{ScreenFrame, ScreenSnapshot, FrameStore, new, insert_frame, get}
use oc_computer_use.Frames.Eviction.{
  keep_last, refreshed, IsWf, new-IsWf, insert_frame-IsWf, insert_frame-order, get-insert_frame,
}
use oc_computer_use.Stale.{StaleFrameConfig, StaleFramePolicy, check}
use oc_computer_use.Stale.Fresh.{IsFresh, check_iff}

abbrev key : ℕ → RequestKey
key n = record { connection_id = 1; request_id = n }

-- A set that yields the key inserted first.
abbrev first : List RequestKey → Option RequestKey
first [] = none
first (k ∷ ks) = some k

abbrev handle : RequestHandle sample
handle = record { session_id = 7; token = 5 }

abbrev registered : RequestRegistry sample
registered = record { handles = (key 2, handle) ∷ []; tombstones = [] }

registered_lem : lookup (key 2) registered.handles ≡ some handle
unfolding lookup
registered_lem = refl

cancel_precise_example :
    let out = cancel sample first (key 2) 7 registered no_tokens in
    IsCancelled sample first (key 2) 7 registered no_tokens out
    ⊎ IsForeign sample first (key 2) 7 registered no_tokens out
    ⊎ IsUnknown sample first (key 2) registered no_tokens out
cancel_precise_example = cancel_precise sample first (key 2) 7 registered no_tokens

first_yields : (ts : List RequestKey) (k : RequestKey) → first ts ≡ some k → contains k ts ≡ true
unfolding contains
first_yields [] k e = ground arith
first_yields (t ∷ ts) k e = ground arith

first_finds : (ts : List RequestKey) → 0 < length ts → (k : RequestKey) × (first ts ≡ some k)
first_finds [] h = absurd (omega (arith, h))
first_finds (t ∷ ts) h = (t, refl)

first-IsIterator : IsIterator sample first
first-IsIterator = record { yields = first_yields; finds = first_finds }

operations-IsBounded_example :
    IsBounded sample first (register sample (key 3) 7 6 registered no_tokens).0
    × IsBounded sample first (unregister sample (key 3) registered)
    × IsBounded sample first (cancel sample first (key 3) 7 registered no_tokens).1
operations-IsBounded_example =
    operations-IsBounded sample first (key 3) 7 6 registered no_tokens first-IsIterator
      (ground arith)

absent : lookup (key 3) registered.handles ≡ none
unfolding lookup
absent = refl

cancel_before_register_example :
    let r = (cancel sample first (key 3) 7 registered no_tokens).1 in
    sample.is_cancelled 6 (register sample (key 3) 7 6 r no_tokens).1 ≡ true
cancel_before_register_example =
    cancel_before_register sample first (key 3) 7 7 6 registered
      (cancel sample first (key 3) 7 registered no_tokens).1 no_tokens no_tokens absent
      (ground arith) done

abbrev bounds : DisplayBounds sample
bounds = record { x = 0; y = 0; width = 100; height = 100 }

abbrev frame : ℕ → ScreenFrame sample
frame n = record {
  frame_id = n;
  session_id = 7;
  captured_at = 0;
  image = 0;
  width = 100;
  height = 100;
  display_id = 0;
  bounds = bounds;
  scale_factor = 1000;
}

abbrev snapshot : ℕ → ScreenSnapshot
snapshot t = record {
  thumbnail = 10 ∷ 20 ∷ [];
  thumb_width = 2;
  thumb_height = 1;
  active_application = some 3;
  active_window_title = none;
  display_id = 0;
  captured_at = t;
}

abbrev one_frame : FrameStore sample
one_frame = insert_frame sample (frame 1) (snapshot 0) (new sample 1)

one_frame-IsWf : IsWf sample one_frame
one_frame-IsWf = insert_frame-IsWf sample (frame 1) (snapshot 0) (new sample 1) (new-IsWf sample 1)

insert_frame-order_example :
    (insert_frame sample (frame 2) (snapshot 0) one_frame).order
    ≡ keep_last one_frame.limit (refreshed sample 2 one_frame.order)
insert_frame-order_example =
    insert_frame-order sample (frame 2) (snapshot 0) one_frame one_frame-IsWf

get-insert_frame_example :
    let s' = insert_frame sample (frame 2) (snapshot 0) one_frame in
    get sample 1 s' ≡ (if contains 1 s'.order then get sample 1 one_frame else none)
get-insert_frame_example = get-insert_frame sample 1 (frame 2) (snapshot 0) one_frame one_frame-IsWf

abbrev config : StaleFrameConfig sample
config = record {
  threshold = 120;
  max_age_secs = 120;
  app_change_is_stale = true;
  policy = StaleFramePolicy.strict;
}

check_iff_example :
    ((check sample config 5 (snapshot 0) (snapshot 5) 1 1).is_stale ≡ false)
    ↔ IsFresh sample config 5 (snapshot 0) (snapshot 5) 1 1
check_iff_example = check_iff sample config 5 (snapshot 0) (snapshot 5) 1 1

-- The keys below `n`, the last one first.
many : ℕ → List RequestKey
many zero = []
many (suc n) = key n ∷ many n

abbrev crowded : RequestRegistry sample
crowded = record { handles = []; tombstones = many 256 }

unregistered : lookup (key 300) crowded.handles ≡ none
unfolding lookup
unregistered = refl

overfull : max_tombstones < length (add (key 300) crowded.tombstones)
unfolding add contains many
overfull = ground arith

yields_new : first (add (key 300) crowded.tombstones) ≡ some (key 300)
unfolding add contains many
yields_new = refl

evicted_cancel_lost_example :
    let out = cancel sample first (key 300) 7 crowded no_tokens in
    (out.0 ≡ ok false) × ((register sample (key 300) 7 6 out.1 out.2).1 ≡ no_tokens)
evicted_cancel_lost_example =
    evicted_cancel_lost sample first (key 300) 7 7 6 crowded no_tokens unregistered overfull
      yields_new
