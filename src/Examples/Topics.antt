-- ===== src/Examples/Topics.antt =====
-- Filters of src/protocol.rs on concrete topics.
use blitz_broker.Common.{◌≡◌, refl, ◌≢◌, ◌↔◌, true, [], ◌∷◌, nat_eq, list_eq}
use blitz_broker.Outcome.{ok}
use blitz_broker.Protocol.Packet.{Str}
use blitz_broker.Protocol.Topic.{
  match_levels, split, plus, validate_topic_filter, topic_matches_filter,
}
use blitz_broker.Protocol.Topic.Levels.{FitsUpTo, topic_matches_filter-FitsUpTo}
use blitz_broker.Protocol.Topic.Validity.{HasValidLevels, validate_topic_filter-HasValidLevels}

abbrev topic : Str
topic = b'a' ∷ b'/' ∷ b'b' ∷ []

abbrev filter : Str
filter = b'a' ∷ b'/' ∷ plus ∷ []

topic_matches_filter-FitsUpTo_example :
    (topic_matches_filter topic filter ≡ true) ↔ FitsUpTo (split topic) (split filter)
topic_matches_filter-FitsUpTo_example = topic_matches_filter-FitsUpTo topic filter

validate_topic_filter-HasValidLevels_example :
    (validate_topic_filter filter ≡ ok tt) ↔ ((filter ≢ []) × HasValidLevels (split filter))
validate_topic_filter-HasValidLevels_example = validate_topic_filter-HasValidLevels filter

-- A run of the matcher.
matches_plus : topic_matches_filter topic filter ≡ true
unfolding topic_matches_filter match_levels split
matches_plus = refl
