-- ===== src/Protocol/Topic/Levels.antt =====
-- When a topic matches a filter, by the parts of the filter before and from its first `#`.
use blitz_broker.Common.{
  ◌≡◌, refl, ap, ◌↔◌, ◌⊎◌, inl, inr, true, List, [], ◌∷◌, ◌++◌, nat_eq, list_eq,
}
use blitz_broker.Protocol.Packet.{Str}
use blitz_broker.Protocol.Topic.{split, plus, hash, topic_matches_filter}
use blitz_broker.Protocol.Topic.Matching.{
  Matches, both_end, multi_level, single_level, same_level, topic_matches_filter-Matches,
}

-- As many levels of a topic as of a filter, each of which is `+` or the topic's level.
abbrev pub Fits : List Str → List Str → Type 0
Fits [] [] = Unit
Fits [] (level ∷ filter) = ⊥
Fits (name ∷ topic) [] = ⊥
Fits (name ∷ topic) (level ∷ filter) = ((level ≡ plus ∷ []) ⊎ (level ≡ name)) × Fits topic filter

-- The first levels of the topic fit those of the filter, and then both end, or the filter has a `#`.
pub record FitsUpTo (topic filter : List Str) : Type 0 where
  pub front : List Str
  pub rest : List Str
  pub head : List Str
  pub tail : List Str
  pub topic_parts : topic ≡ front ++ rest
  pub filter_parts : filter ≡ head ++ tail
  pub fits : Fits front head
  pub ends : ((rest ≡ []) × (tail ≡ [])) ⊎ ((more : List Str) × (tail ≡ (hash ∷ []) ∷ more))

one_more :
    (name level : Str) (topic filter : List Str)
    → (level ≡ plus ∷ []) ⊎ (level ≡ name)
    → FitsUpTo topic filter
    → FitsUpTo (name ∷ topic) (level ∷ filter)
one_more name level topic filter fit v = record {
  front = name ∷ v.front;
  rest = v.rest;
  head = level ∷ v.head;
  tail = v.tail;
  topic_parts = ap (◌∷◌ name) v.topic_parts;
  filter_parts = ap (◌∷◌ level) v.filter_parts;
  fits = (fit, v.fits);
  ends = v.ends;
}

Matches-FitsUpTo : {topic filter : List Str} → Matches topic filter → FitsUpTo topic filter
Matches-FitsUpTo both_end = record {
  front = [];
  rest = [];
  head = [];
  tail = [];
  topic_parts = refl;
  filter_parts = refl;
  fits = tt;
  ends = inl (refl, refl);
}
Matches-FitsUpTo (multi_level {topic} {filter} {level} e) = record {
  front = [];
  rest = topic;
  head = [];
  tail = level ∷ filter;
  topic_parts = refl;
  filter_parts = refl;
  fits = tt;
  ends = inr (filter, ap (λ first. first ∷ filter) e);
}
Matches-FitsUpTo (single_level {topic} {filter} {level} {name} e m) =
    one_more name level topic filter (inl e) (Matches-FitsUpTo m)
Matches-FitsUpTo (same_level {topic} {filter} {level} {name} e m) =
    one_more name level topic filter (inr e) (Matches-FitsUpTo m)

Fits-Matches :
    (front head rest tail : List Str)
    → Fits front head
    → Matches rest tail
    → Matches (front ++ rest) (head ++ tail)
Fits-Matches [] [] rest tail h m = m
Fits-Matches [] (level ∷ head) rest tail h m = absurd h
Fits-Matches (name ∷ front) [] rest tail h m = absurd h
Fits-Matches (name ∷ front) (level ∷ head) rest tail h m =
    let later = Fits-Matches front head rest tail h.1 m in
    elim h.0 [ inl any ↦ single_level any later | inr same ↦ same_level same later ]

FitsUpTo-Matches : (topic filter : List Str) → FitsUpTo topic filter → Matches topic filter
FitsUpTo-Matches topic filter v =
    rw (v.topic_parts, v.filter_parts) (Fits-Matches v.front v.head v.rest v.tail v.fits ending)
  where
    ending : Matches v.rest v.tail
    ending = elim v.ends [
      | inl (no_rest, no_tail) ↦ rw (no_rest, no_tail) both_end
      | inr (more, is_hash) ↦ rw is_hash (multi_level refl)
    ]

-- On any two strings, `topic_matches_filter` says whether the first levels of the topic fit as many of the
-- filter, a `+` any level and another level only itself, and then either both end, or the filter goes on with
-- a level `#`, whatever is left of the topic. A `#` counts wherever it stands, and a topic that begins with
-- `$` is no exception.
pub topic_matches_filter-FitsUpTo :
    (topic filter : Str)
    → (topic_matches_filter topic filter ≡ true) ↔ FitsUpTo (split topic) (split filter)
topic_matches_filter-FitsUpTo topic filter =
    let rules = topic_matches_filter-Matches topic filter in
    (
      λ h. Matches-FitsUpTo (rules.0 h),
      λ v. rules.1 (FitsUpTo-Matches (split topic) (split filter) v),
    )
