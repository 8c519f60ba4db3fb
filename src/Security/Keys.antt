-- ===== src/Security/Keys.antt =====
-- Which keys of a field redact_json takes for secrets.
use oc_computer_use.Prelude.{
  ℕ, ◌≡◌, refl, ap, ◌⊎◌, ◌↔◌, inl, inr, ◌+◌, ◌≤◌, leb, true, ◌&&◌, ◌||◌, ◌==◌, List, [], ◌∷◌, ◌++◌,
  map, Bool-cases, arith,
}
use oc_computer_use.Security.Redact.{
  is_secret_key, to_lower, starts_with, contains_text, token_text, secret_text,
}

-- A text spells a word of small letters, in whatever case.
unfoldable pub IsSpelled : List ℕ → List ℕ → Type 0
IsSpelled [] [] = Unit
IsSpelled [] (d ∷ ds) = ⊥
IsSpelled (c ∷ cs) [] = ⊥
IsSpelled (c ∷ cs) (d ∷ ds) = ((d ≡ c) ⊎ (d + 32 ≡ c)) × IsSpelled cs ds

-- The text contains the word, in whatever case.
pub record Names (word text : List ℕ) : Type 0 where
  pub before : List ℕ
  pub spelled : List ℕ
  pub after : List ℕ
  pub split : text ≡ before ++ (spelled ++ after)
  pub same : IsSpelled word spelled

-- The letters of the word are small.
abbrev pub IsSmall : List ℕ → Type 0
IsSmall [] = Unit
IsSmall (c ∷ cs) = (97 ≤ c) × (c ≤ 122) × IsSmall cs

lower_cases : (c d : ℕ) → (c == to_lower d) ≡ true → (d ≡ c) ⊎ (d + 32 ≡ c)
lower_cases c d h = elim (Bool-cases (leb 65 d && leb d 90)) [
  | inl upper ↦ inr (ground arith)
  | inr lower ↦ inl (ground arith)
]

lower_same : (c d : ℕ) → 97 ≤ c → c ≤ 122 → (d ≡ c) ⊎ (d + 32 ≡ c) → (c == to_lower d) ≡ true
lower_same c d low high (inl e) = ground arith
lower_same c d low high (inr e) = ground arith

starts_with-Names :
    (word text : List ℕ)
    → starts_with word (map to_lower text) ≡ true
    → (spelled : List ℕ) × (after : List ℕ) × (text ≡ spelled ++ after) × IsSpelled word spelled
unfolding starts_with IsSpelled
starts_with-Names [] text h = ([], text, refl, tt)
starts_with-Names (c ∷ cs) [] h = absurd (cc)
starts_with-Names (c ∷ cs) (d ∷ ds) h =
    let (spelled, after, e, s) = starts_with-Names cs ds (ground arith) in
    (d ∷ spelled, after, ap (λ r. d ∷ r) e, (lower_cases c d (ground arith), s))

Names-starts_with :
    (word spelled after : List ℕ)
    → IsSmall word
    → IsSpelled word spelled
    → starts_with word (map to_lower (spelled ++ after)) ≡ true
unfolding starts_with IsSpelled
Names-starts_with [] [] after small h = refl
Names-starts_with [] (d ∷ ds) after small h = absurd h
Names-starts_with (c ∷ cs) [] after small h = absurd h
Names-starts_with (c ∷ cs) (d ∷ ds) after (low, high, small) (same, rest) =
    let e = lower_same c d low high same in
    let r = Names-starts_with cs ds after small rest in rw (e, r) refl

contains_text-Names :
    (word text : List ℕ) → contains_text word (map to_lower text) ≡ true → Names word text
unfolding contains_text
contains_text-Names word [] h =
    let (spelled, after, e, s) = starts_with-Names word [] h in
    record { before = []; spelled = spelled; after = after; split = e; same = s }
contains_text-Names word (d ∷ ds) h = elim (Bool-cases (starts_with word (map to_lower (d ∷ ds)))) [
  | inl here ↦
      (let (spelled, after, e, s) = starts_with-Names word (d ∷ ds) here in
        record { before = []; spelled = spelled; after = after; split = e; same = s })
  | inr elsewhere ↦
      (let n = contains_text-Names word ds (ground arith) in
        record {
          before = d ∷ n.before;
          spelled = n.spelled;
          after = n.after;
          split = ap (λ r. d ∷ r) n.split;
          same = n.same;
        })
]

at_start : (word text : List ℕ) → starts_with word text ≡ true → contains_text word text ≡ true
unfolding contains_text
at_start word [] h = h
at_start word (c ∷ cs) h = rw h refl

IsSmall-token : IsSmall token_text
IsSmall-token = ground arith

IsSmall-secret : IsSmall secret_text
IsSmall-secret = ground arith

found_in :
    (word before spelled after : List ℕ)
    → IsSmall word
    → IsSpelled word spelled
    → contains_text word (map to_lower (before ++ (spelled ++ after))) ≡ true
unfolding contains_text
found_in word [] spelled after small s =
    at_start word (map to_lower (spelled ++ after)) (Names-starts_with word spelled after small s)
found_in word (d ∷ ds) spelled after small s =
    let r = found_in word ds spelled after small s in ground arith

-- A key is secret when it contains `token` or `secret`, in whatever case.
abbrev pub IsSecretKey : List ℕ → Type 0
IsSecretKey k = Names token_text k ⊎ Names secret_text k

pub is_secret_key_iff : (k : List ℕ) → (is_secret_key k ≡ true) ↔ IsSecretKey k
unfolding is_secret_key
is_secret_key_iff k = (to, from)
  where
    to :
        contains_text token_text (map to_lower k) || contains_text secret_text (map to_lower k)
          ≡ true
        → IsSecretKey k
    to h = elim (Bool-cases (contains_text token_text (map to_lower k))) [
      | inl e ↦ inl (contains_text-Names token_text k e)
      | inr e ↦ inr (contains_text-Names secret_text k (ground arith))
    ]

    from :
        IsSecretKey k
        → contains_text token_text (map to_lower k) || contains_text secret_text (map to_lower k)
          ≡ true
    from (inl n) =
        let h = found_in token_text n.before n.spelled n.after IsSmall-token n.same in
        rw n.split (ground arith)
    from (inr n) =
        let h = found_in secret_text n.before n.spelled n.after IsSmall-secret n.same in
        rw n.split (ground arith)
