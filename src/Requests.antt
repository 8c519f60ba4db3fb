-- ===== src/Requests.antt =====
-- cu-runtime/src/requests.rs: the registry by which `computer.cancel` aborts one request.
pub mod Precise
pub mod Tombstones
use oc_computer_use.Prelude.{
  ℕ, ◌≡◌, ◌↔◌, Option, none, some, Bool, true, false, List, [], arith, ◌&&◌, ◌==◌, ltb,
  if◌then◌else◌, length, Eq, nat_eq, contains, erase, add, lookup, insert, remove,
}
use oc_computer_use.Errors.{Text, CuError, Result, ok, err}
use oc_computer_use.Platform.{Platform}

-- `request_id` is a JSON value, of which only equality is used.
pub record RequestKey : Type 0 where
  pub connection_id : ℕ
  pub request_id : Text

abbrev key_beq : RequestKey → RequestKey → Bool
key_beq a b = a.connection_id == b.connection_id && a.request_id == b.request_id

pub key_beq_iff : (a b : RequestKey) → (key_beq a b ≡ true) ↔ (a ≡ b)
key_beq_iff a b = ground arith

instance abbrev pub key_eq : Eq RequestKey
key_eq = record { beq = key_beq; beq_iff = key_beq_iff }

abbrev pub max_tombstones : ℕ
max_tombstones = 256

module _ (P : Platform) where
  open P use {Token, Store, cancel as cancel_token}

  pub record RequestHandle : Type 0 where
    pub session_id : Text
    pub token : Token

  pub record RequestRegistry : Type 0 where
    pub handles : List (RequestKey × RequestHandle)
    pub tombstones : List RequestKey

  unfoldable pub empty : RequestRegistry
  empty = record { handles = []; tombstones = [] }

  unfoldable pub register :
      RequestKey → Text → Token → RequestRegistry → Store → RequestRegistry × Store
  register key session_id token r st = (
    record {
      handles = insert key (record { session_id = session_id; token = token }) r.handles;
      tombstones = erase key r.tombstones;
    },
    if contains key r.tombstones then cancel_token token st else st,
  )

  unfoldable pub unregister : RequestKey → RequestRegistry → RequestRegistry
  unregister key r = record r { handles = remove key r.handles }

  -- `tombstones.iter().next()`: a hash set yields its elements in an order of its own.
  module _ (first : List RequestKey → Option RequestKey) where
    evict : List RequestKey → List RequestKey
    evict ts = elim (first ts) [ none ↦ ts | some oldest ↦ erase oldest ts ]

    -- The `None` arm of `cancel`.
    bury : RequestKey → List RequestKey → List RequestKey
    unfolding evict
    bury key ts = let ts' = add key ts in if ltb max_tombstones (length ts') then evict ts' else ts'

    cancel_found :
        RequestKey
        → Text
        → Option RequestHandle
        → RequestRegistry
        → Store
        → Result Bool × RequestRegistry × Store
    unfolding bury
    cancel_found key session_id (some h) r st =
        if h.session_id == session_id
        then (ok true, r, cancel_token h.token st)
        else (err CuError.invalid_params, r, st)
    cancel_found key session_id none r st =
        (ok false, record r { tombstones = bury key r.tombstones }, st)

    unfoldable pub cancel :
        RequestKey → Text → RequestRegistry → Store → Result Bool × RequestRegistry × Store
    unfolding cancel_found
    cancel key session_id r st = cancel_found key session_id (lookup key r.handles) r st
