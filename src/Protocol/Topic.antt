-- ===== src/Protocol/Topic.antt =====
-- Topic filters in src/protocol.rs: their validation, and the match of a topic.
pub mod Split
pub mod Levels
pub mod Matching
pub mod Validity
use blitz_broker.Common.{
  ℕ, ◌+◌, ◌-◌, Bool, true, false, not, ◌&&◌, List, [], ◌∷◌, ◌==◌, if◌then◌else◌, length, nat_eq,
  list_beq, contains, list_eq,
}
use blitz_broker.Outcome.{Outcome, ok, err}
use blitz_broker.Error.{ProtocolError, malformed_payload}
use blitz_broker.Protocol.Packet.{Str}

abbrev pub slash : ℕ
slash = b'/'

abbrev pub plus : ℕ
plus = b'+'

abbrev pub hash : ℕ
hash = b'#'

abbrev pub in_first : ℕ → List Str → List Str
in_first c [] = (c ∷ []) ∷ []
in_first c (level ∷ levels) = (c ∷ level) ∷ levels

-- `s.split('/').collect()`. An ASCII character occurs in UTF-8 as itself alone.
unfoldable pub split : Str → List Str
split [] = [] ∷ []
split (c ∷ s) = let rest = split s in if c == slash then [] ∷ rest else in_first c rest

-- The loop over `levels.iter().enumerate()`.
unfoldable pub validate_levels : ℕ → ℕ → List Str → Outcome ProtocolError (Unit {0})
validate_levels last_index i [] = ok tt
validate_levels last_index i (level ∷ levels) =
    let rest = validate_levels last_index (i + 1) levels in
    if contains level hash
    then (if not (list_beq level (hash ∷ []))
        then err (malformed_payload "'#' must occupy an entire topic level on its own (§4.7.1.2)")
        else if not (i == last_index)
        then err (malformed_payload "'#' must be the last level in a topic filter (§4.7.1.2)")
        else rest)
    else if contains level plus && not (list_beq level (plus ∷ []))
    then err (malformed_payload "'+' must occupy an entire topic level on its own (§4.7.1.3)")
    else rest

unfoldable pub validate_topic_filter : Str → Outcome ProtocolError (Unit {0})
validate_topic_filter filter =
    if list_beq filter []
    then err (malformed_payload "topic filter must be at least one character (§4.7.3)")
    else let levels = split filter in validate_levels (length levels - 1) 0 levels

-- The loop of `topic_matches_filter`. `ti` and `fi` move together: the lists are what they have not
-- reached of the topic's and the filter's levels.
unfoldable pub match_levels : List Str → List Str → Bool
match_levels topic [] = list_beq topic []
match_levels topic (flevel ∷ filter) = elim (list_beq flevel (hash ∷ [])) [
  | true ↦ true
  | false ↦ elim topic [
    | [] ↦ false
    | level ∷ topic' ↦
        let rest = match_levels topic' filter in
        if not (list_beq flevel (plus ∷ [])) && not (list_beq flevel level) then false else rest
  ]
]

unfoldable pub topic_matches_filter : Str → Str → Bool
topic_matches_filter topic filter = match_levels (split topic) (split filter)
