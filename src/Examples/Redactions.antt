-- ===== src/Examples/Redactions.antt =====
-- Concrete inputs for the theorem on redact_json: a request with a token inside its parameters.
use oc_computer_use.Prelude.{◌≡◌, refl, true, some, [], ◌∷◌, ◌++◌}
use oc_computer_use.Security.Redact.{
  Value, string, object, no_fields, field_then, token_text, is_secret_key, redact_json,
}
use oc_computer_use.Security.Redacted.{
  field, value_at, chained, shown_at, IsMarked, redact_json-value_at,
}

-- { "a": { "token": "A" } }
abbrev payload : Value
payload =
    object
      (field_then (97 ∷ []) (object (field_then token_text (string (65 ∷ [])) no_fields)) no_fields)

redact_json-value_at_example :
    (value_at ((field (97 ∷ []) ∷ []) ++ field token_text ∷ []) (redact_json payload)
      ≡ chained
          (value_at ((field (97 ∷ []) ∷ []) ++ field token_text ∷ []) payload)
          (λ w. some (shown_at (field token_text) w)))
    × IsMarked (field token_text)
redact_json-value_at_example =
    redact_json-value_at (field (97 ∷ []) ∷ []) (field token_text) payload

-- "xToKen"
mixed_case : is_secret_key (120 ∷ 84 ∷ 111 ∷ 75 ∷ 101 ∷ 110 ∷ []) ≡ true
unfolding is_secret_key
mixed_case = refl
