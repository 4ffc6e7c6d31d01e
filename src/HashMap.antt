-- ===== src/HashMap.antt =====
-- `std::collections::HashMap`, as a list of entries with distinct keys. The order of an iteration is that
-- of the list; what is proved for every list of entries is proved for every order.
pub mod Filter
use blitz_broker.Common.{
  All, ◌≡◌, refl, sym, ◌∙◌, inl, inr, false, Option, none, some, List, [], ◌∷◌, arith,
  if◌then◌else◌, Bool-cases, Eq, nat_eq, list_eq,
}

abbrev pub HashMap {ℓ κ} : Type ℓ → Type κ → Type (ℓ ⊔ κ)
HashMap K V = List (K × V)

module _ {ℓ κ} {K : Type ℓ} {V : Type κ} ⦃e : Eq K⦄ where
  -- `get`
  unfoldable pub lookup : K → HashMap K V → Option V
  lookup k [] = none
  lookup k ((j, v) ∷ m) = if e.beq j k then some v else lookup k m

  unfoldable pub insert : K → V → HashMap K V → HashMap K V
  insert k v [] = (k, v) ∷ []
  insert k v ((j, w) ∷ m) = if e.beq j k then (k, v) ∷ m else (j, w) ∷ insert k v m

  unfoldable pub remove : K → HashMap K V → HashMap K V
  remove k [] = []
  remove k ((j, w) ∷ m) = let rest = remove k m in if e.beq j k then rest else (j, w) ∷ rest

  -- No key twice.
  abbrev pub Unique : HashMap K V → Type κ
  Unique [] = Unit
  Unique ((j, v) ∷ m) = (lookup j m ≡ none) × Unique m

  pub lookup-insert :
      (k j : K) (v : V) (m : HashMap K V)
      → lookup j (insert k v m) ≡ (if e.beq k j then some v else lookup j m)
  unfolding lookup insert
  lookup-insert k j v [] = refl
  lookup-insert k j v ((i, w) ∷ m) =
      ground (arith, e.beq_iff k j, e.beq_iff i k, e.beq_iff i j, lookup-insert k j v m)

  pub lookup-remove :
      (k j : K) (m : HashMap K V) → lookup j (remove k m) ≡ (if e.beq k j then none else lookup j m)
  unfolding lookup remove
  lookup-remove k j [] = ground arith
  lookup-remove k j ((i, w) ∷ m) =
      ground (arith, e.beq_iff k j, e.beq_iff i k, e.beq_iff i j, lookup-remove k j m)

  pub insert-Unique : (k : K) (v : V) (m : HashMap K V) → Unique m → Unique (insert k v m)
  unfolding insert
  insert-Unique k v [] u = (unfold lookup in refl, tt)
  insert-Unique k v ((j, w) ∷ m) u = elim (Bool-cases (e.beq j k)) [
    | inl same ↦ let key : j ≡ k = (e.beq_iff j k).0 same in rw same (rw (sym key) u.0, u.1)
    | inr other ↦
        let apart : e.beq k j ≡ false = ground (arith, e.beq_iff k j, e.beq_iff j k) in
        rw other (lookup-insert k j v m ∙ rw apart u.0, insert-Unique k v m u.1)
  ]

  pub remove-Unique : (k : K) (m : HashMap K V) → Unique m → Unique (remove k m)
  unfolding remove
  remove-Unique k [] u = tt
  remove-Unique k ((j, w) ∷ m) u = elim (Bool-cases (e.beq j k)) [
    | inl same ↦ rw same (remove-Unique k m u.1)
    | inr other ↦
        let apart : e.beq k j ≡ false = ground (arith, e.beq_iff k j, e.beq_iff j k) in
        rw other (lookup-remove k j m ∙ rw apart u.0, remove-Unique k m u.1)
  ]

  -- What holds for every entry.
  pub All-insert {ι} :
      (P : K × V → Type ι) (k : K) (v : V) (m : HashMap K V)
      → P (k, v)
      → All P m
      → All P (insert k v m)
  unfolding insert
  All-insert P k v [] h hs = (h, tt)
  All-insert P k v ((j, w) ∷ m) h hs = elim (Bool-cases (e.beq j k)) [
    | inl same ↦ rw same (h, hs.1)
    | inr other ↦ rw other (hs.0, All-insert P k v m h hs.1)
  ]

  pub All-remove {ι} : (P : K × V → Type ι) (k : K) (m : HashMap K V) → All P m → All P (remove k m)
  unfolding remove
  All-remove P k [] hs = tt
  All-remove P k ((j, w) ∷ m) hs = elim (Bool-cases (e.beq j k)) [
    | inl same ↦ rw same (All-remove P k m hs.1)
    | inr other ↦ rw other (hs.0, All-remove P k m hs.1)
  ]

  pub All-lookup {ι} :
      (P : K × V → Type ι) (k : K) (v : V) (m : HashMap K V)
      → lookup k m ≡ some v
      → All P m
      → P (k, v)
  unfolding lookup
  All-lookup P k v [] found hs = absurd (cc)
  All-lookup P k v ((j, w) ∷ m) found hs = elim (Bool-cases (e.beq j k)) [
    | inl same ↦
        let key : j ≡ k = (e.beq_iff j k).0 same in
        let value : some w ≡ some v = rw same at found in
        let held : w ≡ v = cc in mathlib.Core.Path.subst P (rw (key, held) refl) hs.0
    | inr other ↦ All-lookup P k v m (rw other at found) hs.1
  ]

-- `entry(k).or_default()` of a map to `Vec`s, once the key is looked up.
unfoldable pub or_default {ℓ} : {A : Type ℓ} → Option (List A) → List A
or_default none = []
or_default (some v) = v
