-- ===== src/Protocol/Topic/Validity.antt =====
-- Which filters `validate_topic_filter` accepts.
use blitz_broker.Common.{
  ℕ, ◌+◌, ◌-◌, ◌≡◌, refl, ◌≢◌, ◌↔◌, inl, inr, false, List, [], ◌∷◌, arith, Bool-cases, length,
  nat_eq, list_beq, list_beq_iff, contains, list_eq,
}
use blitz_broker.Outcome.{ok}
use blitz_broker.Protocol.Packet.{Str}
use blitz_broker.Protocol.Topic.{split, plus, hash, validate_levels, validate_topic_filter}
use blitz_broker.Protocol.Topic.Split.{split-cases}

-- The rules of MQTT 3.1.1, sections 4.7.1.2 and 4.7.1.3: a '#' is alone in the last level, a '+' alone
-- in its level.
pub data HasValidLevels : List Str → Type 0 where
  all_valid : HasValidLevels []
  ends_in_hash : {level : Str} → level ≡ hash ∷ [] → HasValidLevels (level ∷ [])
  plus_level :
      {level : Str} {levels : List Str}
      → level ≡ plus ∷ []
      → HasValidLevels levels
      → HasValidLevels (level ∷ levels)
  plain_level :
      {level : Str} {levels : List Str}
      → contains level hash ≡ false
      → contains level plus ≡ false
      → HasValidLevels levels
      → HasValidLevels (level ∷ levels)

rest_valid :
    (last_index i : ℕ) (level : Str) (levels : List Str)
    → validate_levels last_index i (level ∷ levels) ≡ ok tt
    → validate_levels last_index (i + 1) levels ≡ ok tt
unfolding validate_levels
rest_valid last_index i level levels h = ground arith

validate-HasValidLevels :
    (last_index i : ℕ) (levels : List Str)
    → last_index + 1 ≡ i + length levels
    → validate_levels last_index i levels ≡ ok tt
    → HasValidLevels levels
unfolding validate_levels
validate-HasValidLevels last_index i [] n h = all_valid
validate-HasValidLevels last_index i (level ∷ []) n h = elim (Bool-cases (contains level hash)) [
  | inl has_hash ↦ ends_in_hash ((list_beq_iff level (hash ∷ [])).0 (ground arith))
  | inr no_hash ↦ elim (Bool-cases (list_beq level (plus ∷ []))) [
    | inl is_plus ↦ plus_level ((list_beq_iff level (plus ∷ [])).0 is_plus) all_valid
    | inr other ↦ plain_level no_hash (ground arith) all_valid
  ]
]
validate-HasValidLevels last_index i (level ∷ next ∷ levels) n h =
    elim (Bool-cases (contains level hash)) [
      | inl has_hash ↦ absurd (ground arith)
      | inr no_hash ↦
          let rest =
            validate-HasValidLevels last_index (i + 1) (next ∷ levels) (omega arith)
              (rest_valid last_index i level (next ∷ levels) h) in
          elim (Bool-cases (list_beq level (plus ∷ []))) [
            | inl is_plus ↦ plus_level ((list_beq_iff level (plus ∷ [])).0 is_plus) rest
            | inr other ↦ plain_level no_hash (ground arith) rest
          ]
    ]

HasValidLevels-validate :
    (last_index i : ℕ) {levels : List Str}
    → last_index + 1 ≡ i + length levels
    → HasValidLevels levels
    → validate_levels last_index i levels ≡ ok tt
unfolding validate_levels
HasValidLevels-validate last_index i n all_valid = refl
HasValidLevels-validate last_index i n (ends_in_hash {level} e) =
    let last : i ≡ last_index = omega arith in rw (e, last) (ground arith)
HasValidLevels-validate last_index i n (plus_level {level} {levels} e v) =
    rw e (HasValidLevels-validate last_index (i + 1) (omega arith) v)
HasValidLevels-validate last_index i n (plain_level {level} {levels} no_hash no_plus v) =
    rw (no_hash, no_plus) (HasValidLevels-validate last_index (i + 1) (omega arith) v)

-- A filter is accepted exactly if it is not empty and its levels obey the rules.
pub validate_topic_filter-HasValidLevels :
    (filter : Str)
    → (validate_topic_filter filter ≡ ok tt) ↔ ((filter ≢ []) × HasValidLevels (split filter))
unfolding validate_topic_filter
validate_topic_filter-HasValidLevels filter =
    let (level, levels, e) = split-cases filter in
    let count : length (split filter) - 1 + 1 ≡ length (split filter) = rw e (omega arith) in
    elim (Bool-cases (list_beq filter [])) [
      | inl empty ↦ (λ h. cc (rw empty at h), λ v. absurd (v.0 ((list_beq_iff filter []).0 empty)))
      | inr given ↦ (
        λ h. (
          λ none_left. cc (rw given at ((list_beq_iff filter []).1 none_left)),
          validate-HasValidLevels _ 0 (split filter) (omega (arith, count)) (rw given at h),
        ),
        λ v. rw given (HasValidLevels-validate _ 0 (omega (arith, count)) v.1),
      )
    ]
