-- ===== src/Requests/Tombstones.antt =====
-- A cancellation that comes before its request, and the bound on how many are remembered.
use oc_computer_use.Prelude.{
  ◌+◌, contains-add, contains-erase_other, ◌≡◌, ◌∙◌, sym, ◌≤◌, ◌<◌, refl, Option, none, some, true,
  false, List, arith, lookup, length, contains, contains-add_self, contains-erase_self,
  length-add-le, length-erase-le, length-erase_mem, add,
}
use oc_computer_use.Errors.{Text, ok}
use oc_computer_use.Platform.{Platform}
use oc_computer_use.Requests.{
  RequestKey, key_eq, RequestHandle, RequestRegistry, max_tombstones, cancel, cancel_found,
  register, unregister, bury, evict,
}

module _ (P : Platform) (first : List RequestKey → Option RequestKey) where
  open P use {Token, Store, is_cancelled, cancel_self}

  -- What the iterator of a set does: it yields an element of the set, and one unless it is empty.
  pub record IsIterator : Type 0 where
    pub yields : (ts : List RequestKey) (k : RequestKey) → first ts ≡ some k → contains k ts ≡ true
    pub finds : (ts : List RequestKey) → 0 < length ts → (k : RequestKey) × (first ts ≡ some k)

  -- The tombstones never exceed their limit.
  abbrev pub IsBounded : RequestRegistry P → Type 0
  IsBounded r = length r.tombstones ≤ max_tombstones

  evict_shrinks :
      IsIterator
      → (ts : List RequestKey) → 0 < length ts
      → length (evict P first ts) + 1 ≤ length ts
  unfolding evict
  evict_shrinks it ts h =
      let (k, e) = it.finds ts h in rw (e, evict) (length-erase_mem k ts (it.yields ts k e))

  bury_bounded :
      IsIterator
      → (k : RequestKey) (ts : List RequestKey) → length ts ≤ max_tombstones
      → length (bury P first k ts) ≤ max_tombstones
  unfolding bury
  bury_bounded it k ts h = ground (arith, length-add-le k ts, evict_shrinks it (add k ts))

  cancel_found-IsBounded :
      (key : RequestKey) (sid : Text) (found : Option (RequestHandle P)) (r : RequestRegistry P)
      (st : Store)
      → IsIterator
      → IsBounded r
      → IsBounded (cancel_found P first key sid found r st).1
  unfolding cancel_found
  cancel_found-IsBounded key sid none r st it h = bury_bounded it key r.tombstones h
  cancel_found-IsBounded key sid (some x) r st it h = ground arith

  -- Every operation of the registry keeps the number of tombstones within the limit.
  pub operations-IsBounded :
      (key : RequestKey) (sid : Text) (t : Token) (r : RequestRegistry P) (st : Store)
      → IsIterator
      → IsBounded r
      → IsBounded (register P key sid t r st).0
        × IsBounded (unregister P key r)
        × IsBounded (cancel P first key sid r st).1
  unfolding register unregister cancel
  operations-IsBounded key sid t r st it h = (
    omega (arith, length-erase-le key r.tombstones),
    h,
    cancel_found-IsBounded key sid (lookup key r.handles) r st it h,
  )

  -- What other requests may do between a cancellation and its request's registration, while there
  -- is room for tombstones.
  pub data Traffic (key : RequestKey) : RequestRegistry P → RequestRegistry P → Type 0 where
    done : {r : RequestRegistry P} → Traffic key r r
    registers :
        {r r' : RequestRegistry P} (j : RequestKey) (sid : Text) (t : Token) (st : Store)
        → key_eq.beq j key ≡ false
        → Traffic key (register P j sid t r st).0 r'
        → Traffic key r r'
    unregisters :
        {r r' : RequestRegistry P} (j : RequestKey)
        → Traffic key (unregister P j r) r'
        → Traffic key r r'
    cancels :
        {r r' : RequestRegistry P} (j : RequestKey) (sid : Text) (st : Store)
        → length r.tombstones < max_tombstones
        → Traffic key (cancel P first j sid r st).1 r'
        → Traffic key r r'

  bury_keeps :
      (j key : RequestKey) (ts : List RequestKey)
      → length ts < max_tombstones
      → contains key (add j ts) ≡ contains key (bury P first j ts)
  unfolding bury
  bury_keeps j key ts h = ground (arith, length-add-le j ts)

  cancel_found_keeps :
      (j key : RequestKey) (sid : Text) (found : Option (RequestHandle P)) (r : RequestRegistry P)
      (st : Store)
      → length r.tombstones < max_tombstones
      → contains key r.tombstones ≡ true
      → contains key (cancel_found P first j sid found r st).1.tombstones ≡ true
  unfolding cancel_found
  cancel_found_keeps j key sid none r st h c =
      sym (bury_keeps j key r.tombstones h) ∙ contains-add j key r.tombstones c
  cancel_found_keeps j key sid (some x) r st h c = ground arith

  Traffic-keeps :
      (key : RequestKey) {r r' : RequestRegistry P}
      → Traffic key r r'
      → contains key r.tombstones ≡ true
      → contains key r'.tombstones ≡ true
  unfolding register unregister cancel
  Traffic-keeps key done c = c
  Traffic-keeps key (registers {r = r} j sid t st n rest) c =
      Traffic-keeps key rest (contains-erase_other j key r.tombstones n ∙ c)
  Traffic-keeps key (unregisters j rest) c = Traffic-keeps key rest c
  Traffic-keeps key (cancels {r = r} j sid st room rest) c =
      Traffic-keeps key rest (cancel_found_keeps j key sid (lookup j r.handles) r st room c)

  register_buried :
      (key : RequestKey) (sid : Text) (t : Token) (r : RequestRegistry P) (st : Store)
      → contains key r.tombstones ≡ true
      → is_cancelled t (register P key sid t r st).1 ≡ true
  unfolding register
  register_buried key sid t r st c = rw c (cancel_self t st)

  cancel_buries :
      (key : RequestKey) (sid : Text) (r : RequestRegistry P) (st : Store)
      → lookup key r.handles ≡ none
      → length r.tombstones < max_tombstones
      → contains key (cancel P first key sid r st).1.tombstones ≡ true
  unfolding cancel cancel_found
  cancel_buries key sid r st e room =
      rw (e, cancel)
        (sym (bury_keeps key key r.tombstones room) ∙ contains-add_self key r.tombstones)

  -- A request whose cancellation came first is cancelled the moment it registers, whatever other
  -- requests did in between, while there is room for tombstones. No session need match.
  pub cancel_before_register :
      (key : RequestKey) (sid sid' : Text) (t : Token) (r r' : RequestRegistry P) (st st' : Store)
      → lookup key r.handles ≡ none
      → length r.tombstones < max_tombstones
      → Traffic key (cancel P first key sid r st).1 r'
      → is_cancelled t (register P key sid' t r' st').1 ≡ true
  cancel_before_register key sid sid' t r r' st st' e room between =
      register_buried key sid' t r' st'
        (Traffic-keeps key between (cancel_buries key sid r st e room))

  -- With the limit reached, a set that yields the key just inserted loses that cancellation: the
  -- request registers with its token as it was.
  pub evicted_cancel_lost :
      (key : RequestKey) (sid sid' : Text) (t : Token) (r : RequestRegistry P) (st : Store)
      → lookup key r.handles ≡ none
      → max_tombstones < length (add key r.tombstones)
      → first (add key r.tombstones) ≡ some key
      → let out = cancel P first key sid r st in
        (out.0 ≡ ok false) × ((register P key sid' t out.1 out.2).1 ≡ st)
  unfolding cancel cancel_found bury evict register
  evicted_cancel_lost key sid sid' t r st e full f =
      rw (e, cancel) (refl, ground (arith, f, contains-erase_self key (add key r.tombstones)))
