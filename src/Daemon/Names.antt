-- ===== src/Daemon/Names.antt =====
-- The ids that name a trace file: validate_session_id of cu-daemon/src/jsonrpc.rs.
use oc_computer_use.Prelude.{
  ℕ, ◌≡◌, ◌≢◌, ◌≤◌, ◌⊎◌, inl, inr, leb, ◌==◌, true, ◌&&◌, List, [], ◌∷◌, length, All, Bool-cases,
  arith,
}
use oc_computer_use.Errors.{ok}
use oc_computer_use.Daemon.Tokens.{is_id_byte, all_id_bytes, validate_session_id}

-- A small letter, a capital letter, a digit, `-` or `_`: no dot and no slash.
abbrev pub IsIdByte : ℕ → Type 0
IsIdByte c =
    ((97 ≤ c) × (c ≤ 122)) ⊎ ((65 ≤ c) × (c ≤ 90)) ⊎ ((48 ≤ c) × (c ≤ 57)) ⊎ (c ≡ 45) ⊎ (c ≡ 95)

-- One to 64 such bytes.
pub record IsTraceId (id : List ℕ) : Type 0 where
  pub nonempty : id ≢ []
  pub short : length id ≤ 64
  pub plain : All IsIdByte id

is_id_byte-IsIdByte : (c : ℕ) → is_id_byte c ≡ true → IsIdByte c
is_id_byte-IsIdByte c h = elim (Bool-cases (leb 97 c && leb c 122)) [
  | inl e ↦ inl (ground arith, ground arith)
  | inr small ↦ elim (Bool-cases (leb 65 c && leb c 90)) [
    | inl e ↦ inr (inl (ground arith, ground arith))
    | inr capital ↦ elim (Bool-cases (leb 48 c && leb c 57)) [
      | inl e ↦ inr (inr (inl (ground arith, ground arith)))
      | inr digit ↦ elim (Bool-cases (c == 45)) [
        | inl e ↦ inr (inr (inr (inl (ground arith))))
        | inr dash ↦ inr (inr (inr (inr (ground arith))))
      ]
    ]
  ]
]

all_id_bytes-All : (cs : List ℕ) → all_id_bytes cs ≡ true → All IsIdByte cs
unfolding all_id_bytes
all_id_bytes-All [] h = tt
all_id_bytes-All (c ∷ cs) h =
    (is_id_byte-IsIdByte c (ground arith), all_id_bytes-All cs (ground arith))

pub validate_session_id-IsTraceId : (id : List ℕ) → validate_session_id id ≡ ok tt → IsTraceId id
unfolding validate_session_id
validate_session_id-IsTraceId [] h = absurd (cc)
validate_session_id-IsTraceId (c ∷ cs) h = record {
  nonempty = λ e. cc;
  short = ground arith;
  plain = all_id_bytes-All (c ∷ cs) (ground arith);
}
