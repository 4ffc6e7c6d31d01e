-- ===== src/Protocol/Topic/Split.antt =====
-- Splitting a topic at its slashes loses nothing.
use blitz_broker.Common.{
  ℕ, ◌≡◌, refl, ◌∙◌, inl, inr, false, List, [], ◌∷◌, ◌++◌, arith, ◌==◌, ==_iff, Bool-cases, All,
  nat_eq, contains, list_eq,
}
use blitz_broker.Protocol.Packet.{Str}
use blitz_broker.Protocol.Topic.{split, slash, in_first}

join : List Str → Str
join [] = []
join (level ∷ []) = level
join (level ∷ next ∷ levels) = level ++ (slash ∷ join (next ∷ levels))

pub split-cases : (s : Str) → (level : Str) × (levels : List Str) × (split s ≡ level ∷ levels)
unfolding split
split-cases [] = ([], [], refl)
split-cases (c ∷ s) = elim (Bool-cases (c == slash)) [
  | inl at_slash ↦ ([], split s, rw at_slash refl)
  | inr inside ↦ let (level, levels, e) = split-cases s in (c ∷ level, levels, rw (inside, e) refl)
]

join-in_first :
    (c : ℕ) (level : Str) (levels : List Str)
    → join (in_first c (level ∷ levels)) ≡ c ∷ join (level ∷ levels)
unfolding join
join-in_first c level [] = refl
join-in_first c level (next ∷ levels) = refl

join-empty :
    (level : Str) (levels : List Str) → join ([] ∷ level ∷ levels) ≡ slash ∷ join (level ∷ levels)
unfolding join
join-empty level levels = refl

-- Joining the levels gives the topic back.
join-split : (s : Str) → join (split s) ≡ s
unfolding split
join-split [] = unfold join in refl
join-split (c ∷ s) =
    let (level, levels, e) = split-cases s in
    let whole : join (level ∷ levels) ≡ s = rw e at (join-split s) in
    elim (Bool-cases (c == slash)) [
      | inl at_slash ↦
          let same : c ≡ slash = (==_iff c slash).0 at_slash in
          rw (at_slash, e, join-empty level levels, whole, same) refl
      | inr inside ↦ rw (inside, e) (join-in_first c level levels ∙ rw whole refl)
    ]

pub split-injective : (s t : Str) → split s ≡ split t → s ≡ t
split-injective s t e = cc (join-split s, join-split t)

-- A character that is not in the topic is in none of its levels.
pub split-contains :
    (c : ℕ) (s : Str) → contains s c ≡ false → All (λ level. contains level c ≡ false) (split s)
unfolding split
split-contains c [] h = (refl, tt)
split-contains c (d ∷ s) h =
    let (level, levels, e) = split-cases s in
    let ih = rw e at (split-contains c s (ground arith)) in
    elim (Bool-cases (d == slash)) [
      | inl at_slash ↦ rw at_slash (refl, split-contains c s (ground arith))
      | inr inside ↦ rw (inside, e) (ground (arith, ih), ih.1)
    ]
