-- ===== src/Protocol/Settles/Text.antt =====
-- `decode_utf8_string` and `validate_topic_filter` return.
use blitz_broker.Common.{
  ◌&&◌, ◌==◌, contains, ℕ, ◌+◌, ◌-◌, ◌*◌, ◌^◌, ◌≤◌, ◌≡◌, refl, sym, Bool, true, false, not, List,
  [], ◌∷◌, arith, ltb, lt→ltb, tests, length, All, IsByte, nat_eq, list_beq, list_eq,
}
use blitz_broker.Outcome.{
  Returns-self, Returns-if, ok, Returns, returns_ok, Returns-reject_if, Returns-bind,
}
use blitz_broker.Slice.{index-Returns, slice-Returns, u16_from_be_bytes, checked_add}
use blitz_broker.Protocol.Packet.{Str}
use blitz_broker.Protocol.Utf8.{decode_utf8_string, is_utf8}
use blitz_broker.Protocol.Topic.{plus, hash, split, validate_topic_filter, validate_levels}
use blitz_broker.Protocol.WellFormed.{malformed-Returns, malformed-IsFatal, IsText, IsFatal}

-- A string read off the front of `buf`, and where it ends.
abbrev pub IsPrefixString : List ℕ → Str × ℕ → Type 0
IsPrefixString buf (s, end) = IsText s × (end ≡ 2 + length s) × (end ≤ length buf)

pub not-false : (b : Bool) → not b ≡ false → b ≡ true
not-false true h = refl
not-false false h = sym h

pub decode_utf8_string-Returns :
    (buf : List ℕ) → All IsByte buf → Returns (IsPrefixString buf) IsFatal (decode_utf8_string buf)
unfolding decode_utf8_string u16_from_be_bytes checked_add
decode_utf8_string-Returns buf hb =
    Returns-reject_if (ltb (length buf) 2) _ (malformed-IsFatal _) λ h.
      Returns-bind (index-Returns {P = IsByte} buf 0 hb (omega tests)) λ hi his.
        Returns-bind (index-Returns {P = IsByte} buf 1 hb (omega tests)) λ lo los.
          rw (lt→ltb (2 + (hi * 256 + lo)) (2 ^ 64) (omega arith)) (
            Returns-reject_if (ltb (length buf) (2 + (hi * 256 + lo))) _ (malformed-IsFatal _)
              λ fits.
                Returns-bind (slice-Returns buf 2 (2 + (hi * 256 + lo)) (omega arith) (omega tests))
                  λ s len. Returns-reject_if (not (is_utf8 s)) _ (malformed-IsFatal _) λ valid.
                    returns_ok
                      ((not-false (is_utf8 s) valid, omega arith), omega arith, omega tests))

validate_levels-Returns :
    (last_index i : ℕ) (levels : List Str)
    → Returns (λ u. u ≡ tt) IsFatal (validate_levels last_index i levels)
unfolding validate_levels
validate_levels-Returns last_index i [] = returns_ok refl
validate_levels-Returns last_index i (level ∷ levels) =
    let ih = validate_levels-Returns last_index (i + 1) levels in
    Returns-if (contains level hash)
      (λ _.
        Returns-if (not (list_beq level (hash ∷ []))) (λ _. malformed-Returns _)
          λ _. Returns-if (not (i == last_index)) (λ _. malformed-Returns _) λ _. ih)
      λ _.
        Returns-if (contains level plus && not (list_beq level (plus ∷ [])))
          (λ _. malformed-Returns _) λ _. ih

unchecked-Returns : (filter : Str) → Returns (λ u. u ≡ tt) IsFatal (validate_topic_filter filter)
unfolding validate_topic_filter
unchecked-Returns filter =
    Returns-if (list_beq filter []) (λ _. malformed-Returns _)
      λ _. validate_levels-Returns (length (split filter) - 1) 0 (split filter)

pub validate_topic_filter-Returns :
    (filter : Str)
    → Returns (λ u. validate_topic_filter filter ≡ ok tt) IsFatal (validate_topic_filter filter)
validate_topic_filter-Returns filter = Returns-self (unchecked-Returns filter)
