-- ===== src/Protocol/Topic/Matching.antt =====
-- When a topic matches a filter.
use mathlib.Core.Path.{ap₂}
use blitz_broker.Common.{
  ◌≡◌, refl, sym, ◌↔◌, inl, inr, true, false, List, [], ◌∷◌, arith, Bool-cases, All, nat_eq,
  list_beq, list_beq_iff, contains, list_eq,
}
use blitz_broker.Protocol.Packet.{Str}
use blitz_broker.Protocol.Topic.{split, plus, hash, match_levels, topic_matches_filter}
use blitz_broker.Protocol.Topic.Split.{split-contains, split-injective}

-- The matching rules, level by level: both end together; or the filter goes on with `#`, whatever is left of
-- either; or with `+`, and the topic with any level; or both with the same level.
pub data Matches : List Str → List Str → Type 0 where
  both_end : Matches [] []
  multi_level :
      {topic filter : List Str} {level : Str} → level ≡ hash ∷ [] → Matches topic (level ∷ filter)
  single_level :
      {topic filter : List Str} {level name : Str}
      → level ≡ plus ∷ []
      → Matches topic filter
      → Matches (name ∷ topic) (level ∷ filter)
  same_level :
      {topic filter : List Str} {level name : Str}
      → level ≡ name
      → Matches topic filter
      → Matches (name ∷ topic) (level ∷ filter)

match_levels-Matches :
    (topic filter : List Str) → match_levels topic filter ≡ true → Matches topic filter
unfolding match_levels
match_levels-Matches [] [] h = both_end
match_levels-Matches (name ∷ topic) [] h = absurd (cc)
match_levels-Matches [] (level ∷ filter) h = elim (Bool-cases (list_beq level (hash ∷ []))) [
  | inl is_hash ↦ multi_level ((list_beq_iff level (hash ∷ [])).0 is_hash)
  | inr other ↦ absurd (cc (rw (other, match_levels) at h))
]
match_levels-Matches (name ∷ topic) (level ∷ filter) h =
    elim (Bool-cases (list_beq level (hash ∷ []))) [
      | inl is_hash ↦ multi_level ((list_beq_iff level (hash ∷ [])).0 is_hash)
      | inr other ↦ elim (Bool-cases (list_beq level (plus ∷ []))) [
        | inl is_plus ↦
            single_level ((list_beq_iff level (plus ∷ [])).0 is_plus)
              (match_levels-Matches topic filter (ground arith))
        | inr named ↦
            same_level ((list_beq_iff level name).0 (ground arith))
              (match_levels-Matches topic filter (ground arith))
      ]
    ]

Matches-match_levels :
    {topic filter : List Str} → Matches topic filter → match_levels topic filter ≡ true
unfolding match_levels
Matches-match_levels both_end = refl
Matches-match_levels (multi_level {topic} {filter} {level} e) =
    ground (arith, list_beq_iff level (hash ∷ []))
Matches-match_levels (single_level {topic} {filter} {level} {name} e m) =
    ground (arith, list_beq_iff level (plus ∷ []), Matches-match_levels m)
Matches-match_levels (same_level {topic} {filter} {level} {name} e m) =
    ground (arith, list_beq_iff level name, Matches-match_levels m)

-- On any two strings `topic_matches_filter` decides whether the levels of the one match those of the other: a
-- `#` matches what is left of the topic, also nothing and wherever it stands, a `+` one level, and any other
-- level itself. A topic that begins with `$` is no exception.
pub topic_matches_filter-Matches :
    (topic filter : Str)
    → (topic_matches_filter topic filter ≡ true) ↔ Matches (split topic) (split filter)
unfolding topic_matches_filter
topic_matches_filter-Matches topic filter =
    (match_levels-Matches (split topic) (split filter), Matches-match_levels)

Matches-plain :
    {topic filter : List Str}
    → Matches topic filter
    → All (λ level. contains level hash ≡ false) filter
    → All (λ level. contains level plus ≡ false) filter
    → topic ≡ filter
Matches-plain both_end h p = refl
Matches-plain (multi_level {level} e) h p = cc (rw e at h.0)
Matches-plain (single_level {level} e m) h p = cc (rw e at p.0)
Matches-plain (same_level {topic} {filter} {level} {name} e m) h p =
    ap₂ ◌∷◌ (sym e) (Matches-plain m h.1 p.1)

plain-Matches : (levels : List Str) → Matches levels levels
plain-Matches [] = both_end
plain-Matches (level ∷ levels) = same_level refl (plain-Matches levels)

-- A topic that spells a filter is matched by it, wildcard characters and all.
pub topic_matches_itself : (topic : Str) → topic_matches_filter topic topic ≡ true
topic_matches_itself topic =
    (topic_matches_filter-Matches topic topic).1 (plain-Matches (split topic))

-- A filter without wildcard characters matches the topic that it spells, and no other.
pub plain_filter_matches :
    (topic filter : Str)
    → contains filter plus ≡ false
    → contains filter hash ≡ false
    → (topic_matches_filter topic filter ≡ true) ↔ (topic ≡ filter)
plain_filter_matches topic filter no_plus no_hash =
    let rules = topic_matches_filter-Matches topic filter in
    (
      λ h. split-injective topic filter (
          Matches-plain (rules.0 h) (split-contains hash filter no_hash)
            (split-contains plus filter no_plus)),
      λ e. rw e ((topic_matches_filter-Matches filter filter).1 (plain-Matches (split filter))),
    )
