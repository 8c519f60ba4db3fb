-- ===== src/Frames/Eviction.antt =====
-- Inserting a frame: what the store holds afterwards.
use oc_computer_use.Prelude.{
  ℕ, ◌+◌, ◌≤◌, ◌<◌, ◌≡◌, ◌∙◌, sym, refl, inl, inr, none, some, true, false, List, [], ◌∷◌, ◌++◌,
  arith, ◌==◌, ltb, if◌then◌else◌, length, length-append, nat_eq, contains, lookup, insert, remove,
  lookup-remove_self, lookup-remove_other, lookup-insert_self, lookup-insert_other, Bool-cases,
}
use oc_computer_use.Errors.{Text}
use oc_computer_use.Platform.{Platform}
use oc_computer_use.Frames.{
  ScreenFrame, ScreenSnapshot, StoredFrame, FrameStore, new, enforce, insert_frame, get,
}
use oc_computer_use.Frames.Mirror.{
  Mirrors, NoRepeat, has, without, without_absent, remove-Distinct, insert-Distinct, length-insert,
  length-remove_present, length-without, without-NoRepeat, append-NoRepeat, contains-without,
  contains-append,
}

-- The last `n` of a list, or all of a shorter one.
unfoldable pub keep_last : ℕ → List Text → List Text
keep_last n [] = []
keep_last n (x ∷ xs) = let rest = keep_last n xs in if ltb n (length (x ∷ xs)) then rest else x ∷ xs

pub length-keep_last : (n : ℕ) (xs : List Text) → length (keep_last n xs) ≤ n
unfolding keep_last
length-keep_last n [] = omega arith
length-keep_last n (x ∷ xs) = ground (arith, length-keep_last n xs)

keep_last_all : (n : ℕ) (xs : List Text) → length xs ≤ n → keep_last n xs ≡ xs
unfolding keep_last
keep_last_all n [] h = refl
keep_last_all n (x ∷ xs) h = ground arith

contains-keep_last-append :
    (n : ℕ) (xs : List Text) (k : Text) → 0 < n → contains k (keep_last n (xs ++ k ∷ [])) ≡ true
unfolding contains keep_last
contains-keep_last-append n [] k h = ground arith
contains-keep_last-append n (x ∷ xs) k h =
    ground (arith, contains-keep_last-append n xs k h, contains-append k xs k)

module _ (P : Platform) where
  abbrev Entries : Type 0
  Entries = List (Text × StoredFrame P)

  Mirrors-pop :
      (o : Text) (m : Entries) (os : List Text) → Mirrors m (o ∷ os) → Mirrors (remove o m) os
  unfolding contains
  Mirrors-pop o m os w = record {
    distinct = remove-Distinct o m w.distinct;
    norepeat = w.norepeat.1;
    size =
        omega (arith, length-remove_present o m w.distinct (ground (arith, w.members o)), w.size);
    members = λ k. elim (Bool-cases (o == k)) [
      | inl e ↦ ground (arith, lookup-remove_self o m, w.norepeat.0)
      | inr e ↦ ground (arith, lookup-remove_other o k m e, w.members k)
    ];
  }

  record Trimmed (limit : ℕ) (m : Entries) (os : List Text) (m' : Entries) (os' : List Text)
      : Type 0 where
    mirrors : Mirrors m' os'
    last : os' ≡ keep_last limit os
    bounded : length m' ≤ limit
    kept : (k : Text) → contains k os' ≡ true → lookup k m' ≡ lookup k m

  enforce_over :
      (limit : ℕ) (o : Text) (m : Entries) (os : List Text)
      → ltb limit (length m) ≡ true
      → has o m ≡ true
      → enforce P limit m (o ∷ os) ≡ enforce P limit (remove o m) os
  unfolding enforce
  enforce_over limit o m os over h = rw (over, h)

  enforce_fits :
      (limit : ℕ) (o : Text) (m : Entries) (os : List Text)
      → ltb limit (length m) ≡ false
      → enforce P limit m (o ∷ os) ≡ (m, o ∷ os)
  unfolding enforce
  enforce_fits limit o m os fits = rw fits

  front_present : (o : Text) (m : Entries) (os : List Text) → Mirrors m (o ∷ os) → has o m ≡ true
  unfolding contains
  front_present o m os w = ground (arith, w.members o)

  Trimmed-pop :
      (limit : ℕ) (o : Text) (m : Entries) (os : List Text) {m' : Entries} {os' : List Text}
      → ltb limit (length m) ≡ true
      → Mirrors m (o ∷ os)
      → Trimmed limit (remove o m) os m' os'
      → Trimmed limit m (o ∷ os) m' os'
  unfolding keep_last
  Trimmed-pop limit o m os {m'} {os'} over w t = record {
    mirrors = t.mirrors;
    last = ground (arith, t.last, w.size);
    bounded = t.bounded;
    kept = λ k h. elim (Bool-cases (o == k)) [
      | inl e ↦ ground (arith, t.kept k h, t.mirrors.members k, lookup-remove_self o m)
      | inr e ↦ t.kept k h ∙ lookup-remove_other o k m e
    ];
  }

  enforce-Trimmed :
      (limit : ℕ) (m : Entries) (os : List Text)
      → Mirrors m os
      → let r = enforce P limit m os in Trimmed limit m os r.0 r.1
  unfolding enforce
  enforce-Trimmed limit m [] w = record {
    mirrors = w;
    last = sym (keep_last_all limit [] (omega arith));
    bounded = omega (arith, w.size);
    kept = λ k h. refl;
  }
  enforce-Trimmed limit m (o ∷ os) w = elim (Bool-cases (ltb limit (length m))) [
    | inl over ↦ rw (enforce_over limit o m os over (front_present o m os w)) (
        Trimmed-pop limit o m os over w
          (enforce-Trimmed limit (remove o m) os (Mirrors-pop o m os w)))
    | inr fits ↦ rw (enforce_fits limit o m os fits) (record {
      mirrors = w;
      last = sym (keep_last_all limit (o ∷ os) (ground (arith, w.size)));
      bounded = ground arith;
      kept = λ k h. refl;
    })
  ]

  -- The queue after the id of a re-inserted frame is taken out and put at the back.
  abbrev pub refreshed : Text → List Text → List Text
  refreshed id os = without id os ++ id ∷ []

  refreshed-NoRepeat : (id : Text) (os : List Text) → NoRepeat os → NoRepeat (refreshed id os)
  refreshed-NoRepeat id os h =
      append-NoRepeat (without id os) id (without-NoRepeat id os h)
        (ground (arith, contains-without id id os))

  Mirrors-refreshed :
      (id : Text) (v : StoredFrame P) (m : Entries) (os : List Text)
      → Mirrors m os
      → Mirrors (insert id v m) (refreshed id os)
  Mirrors-refreshed id v m os w = record {
    distinct = insert-Distinct id v m w.distinct;
    norepeat = refreshed-NoRepeat id os w.norepeat;
    size = ground (
      arith,
      length-insert id v m w.distinct,
      length-append (without id os) (id ∷ []),
      length-without id os w.norepeat,
      w.members id,
      w.size,
    );
    members = λ k. elim (Bool-cases (id == k)) [
      | inl e ↦ ground (arith, contains-append k (without id os) id, lookup-insert_self id v m)
      | inr e ↦ ground (
        arith,
        contains-append k (without id os) id,
        contains-without id k os,
        lookup-insert_other id k v m e,
        w.members k,
      )
    ];
  }

  -- The store between two calls: its halves agree, and it is within its limit, which is positive.
  pub record IsWf (s : FrameStore P) : Type 0 where
    pub mirrors : Mirrors s.by_id s.order
    pub bounded : length s.by_id ≤ s.limit
    pub positive : 0 < s.limit

  abbrev pub entry : ScreenFrame P → ScreenSnapshot → FrameStore P → StoredFrame P
  entry f n s = record { frame = f; snapshot = n; ordinal = s.ordinal_counter + 1 }

  queue_refreshed :
      (id : Text) (s : FrameStore P)
      → Mirrors s.by_id s.order
      → (if has id s.by_id then without id s.order else s.order) ++ id ∷ [] ≡ refreshed id s.order
  queue_refreshed id s w = elim (Bool-cases (has id s.by_id)) [
    | inl e ↦ rw e
    | inr e ↦ rw e (rw (without_absent id s.order (w.members id ∙ e)))
  ]

  insert_frame_lem :
      (f : ScreenFrame P) (n : ScreenSnapshot) (s : FrameStore P)
      → Mirrors s.by_id s.order
      → let r =
          enforce P s.limit
            (insert f.frame_id (entry f n s) s.by_id)
            (refreshed f.frame_id s.order) in
        insert_frame P f n s
        ≡ record s { by_id = r.0; order = r.1; ordinal_counter = s.ordinal_counter + 1 }
  unfolding insert_frame
  insert_frame_lem f n s w = rw (queue_refreshed f.frame_id s w)

  insert_frame-Trimmed :
      (f : ScreenFrame P) (n : ScreenSnapshot) (s : FrameStore P)
      → Mirrors s.by_id s.order
      → let s' = insert_frame P f n s in
        Trimmed s.limit
          (insert f.frame_id (entry f n s) s.by_id)
          (refreshed f.frame_id s.order)
          s'.by_id
          s'.order
        × (s'.limit ≡ s.limit)
  insert_frame-Trimmed f n s w = rw (insert_frame_lem f n s w) (
    enforce-Trimmed s.limit _ _ (Mirrors-refreshed f.frame_id (entry f n s) s.by_id s.order w),
    refl,
  )

  -- A new store is well formed, whatever limit is asked for.
  pub new-IsWf : (limit : ℕ) → IsWf (new P limit)
  unfolding new contains lookup
  new-IsWf limit = record {
    mirrors = record { distinct = tt; norepeat = tt; size = refl; members = λ k. refl };
    bounded = ground arith;
    positive = ground arith;
  }

  -- Inserting keeps the store well formed: the map and the queue agree and the limit holds.
  pub insert_frame-IsWf :
      (f : ScreenFrame P) (n : ScreenSnapshot) (s : FrameStore P)
      → IsWf s
      → IsWf (insert_frame P f n s)
  insert_frame-IsWf f n s w =
      let (t, l) = insert_frame-Trimmed f n s w.mirrors in
      record {
        mirrors = t.mirrors;
        bounded = omega (arith, t.bounded, l);
        positive = omega (arith, w.positive, l);
      }

  -- The frames kept are the most recently inserted ones: the queue is the last `limit` entries of
  -- the old queue with this id moved to, or put at, its back.
  pub insert_frame-order :
      (f : ScreenFrame P) (n : ScreenSnapshot) (s : FrameStore P)
      → IsWf s
      → (insert_frame P f n s).order ≡ keep_last s.limit (refreshed f.frame_id s.order)
  insert_frame-order f n s w = (insert_frame-Trimmed f n s w.mirrors).0.last

  get_kept :
      (j : Text) (f : ScreenFrame P) (n : ScreenSnapshot) (s : FrameStore P)
      → lookup j (insert f.frame_id (entry f n s) s.by_id)
        ≡ (if f.frame_id == j then some (entry f n s) else get P j s)
  unfolding get
  get_kept j f n s = elim (Bool-cases (f.frame_id == j)) [
    | inl e ↦ ground (arith, lookup-insert_self f.frame_id (entry f n s) s.by_id)
    | inr e ↦ rw e (lookup-insert_other f.frame_id j (entry f n s) s.by_id e)
  ]

  -- What `get` finds after an insertion: for an id that is kept, the new entry or what was there;
  -- for any other, nothing.
  pub get-insert_frame :
      (j : Text) (f : ScreenFrame P) (n : ScreenSnapshot) (s : FrameStore P)
      → IsWf s
      → let s' = insert_frame P f n s in
        get P j s' ≡ (
          if contains j s'.order
          then (if f.frame_id == j then some (entry f n s) else get P j s)
          else none)
  unfolding get
  get-insert_frame j f n s w =
      let (t, l) = insert_frame-Trimmed f n s w.mirrors in
      elim (Bool-cases (contains j (insert_frame P f n s).order)) [
        | inl e ↦ rw e (t.kept j e ∙ get_kept j f n s)
        | inr e ↦ rw e (ground (arith, t.mirrors.members j))
      ]

  -- The frame just inserted is always found.
  pub get-insert_frame_self :
      (f : ScreenFrame P) (n : ScreenSnapshot) (s : FrameStore P)
      → IsWf s
      → get P f.frame_id (insert_frame P f n s) ≡ some (entry f n s)
  get-insert_frame_self f n s w =
      let kept =
        contains-keep_last-append s.limit (without f.frame_id s.order) f.frame_id w.positive in
      ground (arith, get-insert_frame f.frame_id f n s w, insert_frame-order f n s w, kept)
