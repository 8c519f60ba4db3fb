-- ===== src/Security/Redact.antt =====
-- redact_json of crates/cu-core/src/security.rs. A text is the list of its bytes, and an object the
-- list of its fields; a number is its text.
use oc_computer_use.Prelude.{
  ℕ, ◌+◌, leb, ◌==◌, Bool, true, false, ◌&&◌, ◌||◌, List, [], ◌∷◌, if◌then◌else◌, map,
}

mutual
  pub data Value : Type 0 where
    null : Value
    bool : Bool → Value
    number : List ℕ → Value
    string : List ℕ → Value
    array : Items → Value
    object : Fields → Value

  pub data Items : Type 0 where
    no_items : Items
    item_then : Value → Items → Items

  pub data Fields : Type 0 where
    no_fields : Fields
    field_then : List ℕ → Value → Fields → Fields

-- "token", "secret" and "[REDACTED]".
abbrev pub token_text : List ℕ
token_text = 116 ∷ 111 ∷ 107 ∷ 101 ∷ 110 ∷ []

abbrev pub secret_text : List ℕ
secret_text = 115 ∷ 101 ∷ 99 ∷ 114 ∷ 101 ∷ 116 ∷ []

abbrev pub redacted_text : List ℕ
redacted_text = 91 ∷ 82 ∷ 69 ∷ 68 ∷ 65 ∷ 67 ∷ 84 ∷ 69 ∷ 68 ∷ 93 ∷ []

-- `to_ascii_lowercase`.
abbrev pub to_lower : ℕ → ℕ
to_lower c = if leb 65 c && leb c 90 then c + 32 else c

-- `str::contains`.
unfoldable pub starts_with : List ℕ → List ℕ → Bool
starts_with [] text = true
starts_with (c ∷ cs) [] = false
starts_with (c ∷ cs) (d ∷ ds) = c == d && starts_with cs ds

unfoldable pub contains_text : List ℕ → List ℕ → Bool
unfolding starts_with
contains_text part [] = starts_with part []
contains_text part (c ∷ cs) = starts_with part (c ∷ cs) || contains_text part cs

unfoldable pub is_secret_key : List ℕ → Bool
unfolding contains_text
is_secret_key k =
    contains_text token_text (map to_lower k) || contains_text secret_text (map to_lower k)

abbrev pub is_string : Value → Bool
is_string (string _) = true
is_string _ = false

unfoldable mutual
  pub redact_json : Value → Value
  redact_json (object fs) = object (redact_fields fs)
  redact_json (array vs) = array (redact_items vs)
  redact_json null = null
  redact_json (bool b) = bool b
  redact_json (number n) = number n
  redact_json (string s) = string s

  pub redact_fields : Fields → Fields
  redact_fields no_fields = no_fields
  redact_fields (field_then k v fs) =
      let shown = redact_json v in
      let rest = redact_fields fs in
      field_then k (if is_secret_key k && is_string v then string redacted_text else shown) rest

  pub redact_items : Items → Items
  redact_items no_items = no_items
  redact_items (item_then v vs) = item_then (redact_json v) (redact_items vs)
