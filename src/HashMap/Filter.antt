-- ===== src/HashMap/Filter.antt =====
-- The part of a map whose keys pass a test.
use blitz_broker.Common.{
  ap, false, ◌≡◌, refl, ◌∙◌, inl, inr, Bool, none, [], ◌∷◌, arith, if◌then◌else◌, Bool-cases, Eq,
  nat_eq, list_eq,
}
use blitz_broker.HashMap.{HashMap, lookup, insert, remove, Unique}

module _ {ℓ κ} {K : Type ℓ} {V : Type κ} ⦃e : Eq K⦄ where
  unfoldable pub filter_keys : (K → Bool) → HashMap K V → HashMap K V
  filter_keys p [] = []
  filter_keys p ((j, v) ∷ m) = let rest = filter_keys p m in if p j then (j, v) ∷ rest else rest

  pub lookup-filter_keys :
      (p : K → Bool) (j : K) (m : HashMap K V)
      → lookup j (filter_keys p m) ≡ (if p j then lookup j m else none)
  unfolding lookup filter_keys
  lookup-filter_keys p j [] = ground arith
  lookup-filter_keys p j ((i, w) ∷ m) =
      let rest = lookup-filter_keys p j m in
      elim (Bool-cases (e.beq i j)) [
        | inl same ↦
            let key : i ≡ j = (e.beq_iff i j).0 same in
            elim (Bool-cases (p j)) [
              | inl kept ↦ rw (key, kept, rw key at same) refl
              | inr lost ↦ rw (key, lost) (rest ∙ rw lost refl)
            ]
        | inr other ↦ elim (Bool-cases (p i)) [
          | inl kept ↦ rw (kept, other) rest
          | inr lost ↦ rw (lost, other) rest
        ]
      ]

  pub filter_keys-Unique : (p : K → Bool) (m : HashMap K V) → Unique m → Unique (filter_keys p m)
  unfolding filter_keys
  filter_keys-Unique p [] u = tt
  filter_keys-Unique p ((j, v) ∷ m) u = elim (Bool-cases (p j)) [
    | inl kept ↦
        rw kept (lookup-filter_keys p j m ∙ rw (kept, u.0) refl, filter_keys-Unique p m u.1)
    | inr lost ↦ rw lost (filter_keys-Unique p m u.1)
  ]

  -- A change at a key that passes is a change of the part, and at another key it is none.
  pub filter_keys-insert :
      (p : K → Bool) (k : K) (v : V) (m : HashMap K V)
      → filter_keys p (insert k v m)
        ≡ (if p k then insert k v (filter_keys p m) else filter_keys p m)
  unfolding filter_keys insert
  filter_keys-insert p k v [] = refl
  filter_keys-insert p k v ((j, w) ∷ m) =
      let rest = filter_keys-insert p k v m in
      elim (Bool-cases (e.beq j k)) [
        | inl same ↦
            let key : j ≡ k = (e.beq_iff j k).0 same in
            elim (Bool-cases (p k)) [
              | inl kept ↦ rw (key, kept, rw key at same) (ground arith)
              | inr lost ↦ rw (key, lost, rw key at same) (ground arith)
            ]
        | inr other ↦ elim (Bool-cases (p j)) [
          | inl kept ↦ elim (Bool-cases (p k)) [
            | inl in_part ↦ rw (other, kept, in_part, rest) (rw (in_part, other) refl)
            | inr out ↦ rw (other, kept, out, rest) (rw out refl)
          ]
          | inr lost ↦ rw (other, lost) rest
        ]
      ]

  pub filter_keys-remove :
      (p : K → Bool) (k : K) (m : HashMap K V)
      → filter_keys p (remove k m) ≡ remove k (filter_keys p m)
  unfolding filter_keys remove
  filter_keys-remove p k [] = refl
  filter_keys-remove p k ((j, w) ∷ m) =
      let rest = filter_keys-remove p k m in
      elim (Bool-cases (e.beq j k)) [
        | inl same ↦ elim (Bool-cases (p j)) [
          | inl kept ↦ rw (same, kept) (rest ∙ rw same refl)
          | inr lost ↦ rw (same, lost) rest
        ]
        | inr other ↦ elim (Bool-cases (p j)) [
          | inl kept ↦ rw (other, kept) (rw (other, rest) refl)
          | inr lost ↦ rw (other, lost) rest
        ]
      ]

  pub filter_keys-remove_other :
      (p : K → Bool) (k : K) (m : HashMap K V)
      → p k ≡ false
      → filter_keys p (remove k m) ≡ filter_keys p m
  unfolding filter_keys remove
  filter_keys-remove_other p k [] out = refl
  filter_keys-remove_other p k ((j, w) ∷ m) out =
      let rest = filter_keys-remove_other p k m out in
      elim (Bool-cases (e.beq j k)) [
        | inl same ↦
            let lost : p j ≡ false = rw ((e.beq_iff j k).0 same) out in rw (same, lost) rest
        | inr other ↦ elim (Bool-cases (p j)) [
          | inl kept ↦ rw (other, kept) (ap (◌∷◌ (j, w)) rest)
          | inr lost ↦ rw (other, lost) rest
        ]
      ]
