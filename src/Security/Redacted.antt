-- ===== src/Security/Redacted.antt =====
-- What redact_json leaves, field by field.
use oc_computer_use.Prelude.{
  ◌↔◌, ℕ, zero, suc, ◌≡◌, refl, sym, ap, inl, inr, ◌∙◌, Option, none, some, Bool, true, false, List,
  [], ◌∷◌, ◌++◌, ◌==◌, ◌&&◌, if◌then◌else◌, Bool-cases, arith,
}
use oc_computer_use.Security.Redact.{
  Value, Items, Fields, null, bool, number, string, array, object, no_items, item_then, no_fields,
  field_then, redacted_text, is_secret_key, is_string, redact_json, redact_fields, redact_items,
}
use oc_computer_use.Security.Keys.{IsSecretKey, is_secret_key_iff}

-- A part of a value: an item of an array, or a field of an object.
pub data Part : Type 0 where
  item : ℕ → Part
  field : List ℕ → Part

abbrev pub same_text : List ℕ → List ℕ → Bool
same_text [] [] = true
same_text [] (d ∷ ds) = false
same_text (c ∷ cs) [] = false
same_text (c ∷ cs) (d ∷ ds) = c == d && same_text cs ds

unfoldable pub item_at : ℕ → Items → Option Value
item_at n no_items = none
item_at zero (item_then v vs) = some v
item_at (suc n) (item_then v vs) = item_at n vs

unfoldable pub field_at : List ℕ → Fields → Option Value
field_at k no_fields = none
field_at k (field_then j v fs) = let rest = field_at k fs in if same_text k j then some v else rest

unfoldable pub child : Part → Value → Option Value
unfolding item_at field_at
child (item n) (array vs) = item_at n vs
child (field k) (object fs) = field_at k fs
child _ _ = none

abbrev pub chained : Option Value → (Value → Option Value) → Option Value
chained none f = none
chained (some v) f = f v

-- What stands at the end of a path.
unfoldable pub value_at : List Part → Value → Option Value
unfolding child
value_at [] v = some v
value_at (s ∷ path) v = chained (child s v) (λ w. value_at path w)

-- What is shown of the value of a field.
abbrev pub as_shown : List ℕ → Value → Value
as_shown k (string s) = if is_secret_key k then string redacted_text else string s
as_shown k v = redact_json v

abbrev pub shown_at : Part → Value → Value
shown_at (item n) v = redact_json v
shown_at (field k) v = as_shown k v

list-cong : {c d : ℕ} {cs ds : List ℕ} → c ≡ d → cs ≡ ds → (c ∷ cs) ≡ (d ∷ ds)
list-cong e f = cc

same_text_lem : (k j : List ℕ) → same_text k j ≡ true → k ≡ j
same_text_lem [] [] h = refl
same_text_lem [] (d ∷ ds) h = absurd (cc)
same_text_lem (c ∷ cs) [] h = absurd (cc)
same_text_lem (c ∷ cs) (d ∷ ds) h = list-cong (ground arith) (same_text_lem cs ds (ground arith))

-- A value that is no string is not replaced.
plain :
    (k : List ℕ) (v : Value)
    → is_string v ≡ false
    → (if is_secret_key k && is_string v then string redacted_text else redact_json v)
      ≡ redact_json v
plain k v h = ground arith

field_shown :
    (k : List ℕ) (v : Value)
    → (if is_secret_key k && is_string v then string redacted_text else redact_json v)
      ≡ as_shown k v
unfolding redact_json
field_shown k null = plain k null refl
field_shown k (bool b) = plain k (bool b) refl
field_shown k (number n) = plain k (number n) refl
field_shown k (array vs) = plain k (array vs) refl
field_shown k (object fs) = plain k (object fs) refl
field_shown k (string s) = elim (Bool-cases (is_secret_key k)) [
  | inl secret ↦ ground arith
  | inr open_ ↦ ground arith
]

item_at-redact_items :
    (n : ℕ) (vs : Items)
    → item_at n (redact_items vs) ≡ chained (item_at n vs) (λ v. some (redact_json v))
unfolding item_at redact_json
item_at-redact_items n no_items = refl
item_at-redact_items zero (item_then v vs) = refl
item_at-redact_items (suc n) (item_then v vs) = item_at-redact_items n vs

field_at-redact_fields :
    (k : List ℕ) (fs : Fields)
    → field_at k (redact_fields fs) ≡ chained (field_at k fs) (λ v. some (as_shown k v))
unfolding field_at redact_json
field_at-redact_fields k no_fields = refl
field_at-redact_fields k (field_then j v fs) = elim (Bool-cases (same_text k j)) [
  | inl same ↦ rw (same, same_text_lem k j same) (ap some (field_shown j v))
  | inr other ↦ rw other (field_at-redact_fields k fs)
]

child-redact_json :
    (s : Part) (v : Value)
    → child s (redact_json v) ≡ chained (child s v) (λ w. some (shown_at s w))
unfolding child redact_json
child-redact_json (item n) (array vs) = item_at-redact_items n vs
child-redact_json (field k) (object fs) = field_at-redact_fields k fs
child-redact_json (item n) null = refl
child-redact_json (item n) (bool b) = refl
child-redact_json (item n) (number m) = refl
child-redact_json (item n) (string x) = refl
child-redact_json (item n) (object fs) = refl
child-redact_json (field k) null = refl
child-redact_json (field k) (bool b) = refl
child-redact_json (field k) (number n) = refl
child-redact_json (field k) (string x) = refl
child-redact_json (field k) (array vs) = refl

value_at-string :
    (path : List Part) (s : Part) (x : List ℕ) → value_at (path ++ s ∷ []) (string x) ≡ none
unfolding value_at child
value_at-string [] (item n) x = refl
value_at-string [] (field k) x = refl
value_at-string (item n ∷ path) s x = refl
value_at-string (field k ∷ path) s x = refl

-- Below a field nothing tells a text that was replaced from one that was not.
value_at-shown_at :
    (path : List Part) (s t : Part) (w : Value)
    → value_at (path ++ s ∷ []) (shown_at t w) ≡ value_at (path ++ s ∷ []) (redact_json w)
unfolding redact_json
value_at-shown_at path s (item n) w = refl
value_at-shown_at path s (field k) (string x) = elim (Bool-cases (is_secret_key k)) [
  | inl secret ↦ rw secret (value_at-string path s redacted_text ∙ sym (value_at-string path s x))
  | inr open_ ↦ rw open_ refl
]
value_at-shown_at path s (field k) null = refl
value_at-shown_at path s (field k) (bool b) = refl
value_at-shown_at path s (field k) (number n) = refl
value_at-shown_at path s (field k) (array vs) = refl
value_at-shown_at path s (field k) (object fs) = refl

shown_value :
    (path : List Part) (s : Part) (v : Value)
    → value_at (path ++ s ∷ []) (redact_json v)
      ≡ chained (value_at (path ++ s ∷ []) v) (λ w. some (shown_at s w))
unfolding value_at
shown_value [] s v = rw (child-redact_json s v) (last (child s v))
  where
    last :
        (r : Option Value)
        → chained (chained r (λ w. some (shown_at s w))) (λ w. some w)
          ≡ chained (chained r (λ w. some w)) (λ w. some (shown_at s w))
    last none = refl
    last (some w) = refl
shown_value (t ∷ path) s v = rw (child-redact_json t v) (inner (shown_value path s) (child t v))
  where
    inner :
        ((w : Value)
          → value_at (path ++ s ∷ []) (redact_json w)
            ≡ chained (value_at (path ++ s ∷ []) w) (λ u. some (shown_at s u)))
        → (r : Option Value)
        → chained (chained r (λ w. some (shown_at t w))) (λ w. value_at (path ++ s ∷ []) w)
          ≡ chained (chained r (λ w. value_at (path ++ s ∷ []) w)) (λ w. some (shown_at s w))
    inner later none = refl
    inner later (some w) = value_at-shown_at path s t w ∙ later w

-- The last step names a secret exactly when its key contains `token` or `secret`, in any case.
abbrev pub IsMarked : Part → Type 0
IsMarked (item n) = Unit
IsMarked (field k) = (is_secret_key k ≡ true) ↔ IsSecretKey k

-- What stands in the redacted copy at the end of a path of one step or more: nothing, where the value
-- has nothing; else what the value has there, redacted, except that a text in a field whose key
-- contains `token` or `secret`, in any case, is `[REDACTED]`.
pub redact_json-value_at :
    (path : List Part) (s : Part) (v : Value)
    → (value_at (path ++ s ∷ []) (redact_json v)
        ≡ chained (value_at (path ++ s ∷ []) v) (λ w. some (shown_at s w)))
      × IsMarked s
redact_json-value_at path (item n) v = (shown_value path (item n) v, tt)
redact_json-value_at path (field k) v = (shown_value path (field k) v, is_secret_key_iff k)
