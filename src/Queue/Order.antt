-- ===== src/Queue/Order.antt =====
-- What the queue of src/queue.rs holds, and in which order it hands it out.
use native.Mathlib.Nat.{suc-add, zero-add}
use blitz_broker.Common.{
  ℕ, zero, suc, ◌+◌, ◌-◌, ◌≤◌, ◌<◌, ◌≡◌, refl, sym, ap, ◌∙◌, ◌⊎◌, inl, inr, Bool, true, false, List,
  [], ◌∷◌, ◌++◌, map, append-nil, append_assoc, arith, leb, tests, Bool-cases, length, drop,
  length-append, length-drop, drop-append, nat_eq, list_eq,
}
use blitz_broker.Queue.{Queue, Popped, item, ended, new, push, pop, close, push_all, without_front}

module _ {ℓ} {A : Type ℓ} where
  -- The last `n` of the entries.
  abbrev pub keep_last : ℕ → List A → List A
  keep_last n entries = drop (length entries - n) entries

  pub record IsBounded (q : Queue A) : Type ℓ where
    pub positive : 0 < q.capacity
    pub fits : length q.items ≤ q.capacity

  drop-drop : (j k : ℕ) (entries : List A) → drop j (drop k entries) ≡ drop (k + j) entries
  drop-drop j zero entries = rw zero-add refl
  drop-drop zero (suc k) [] = rw suc-add refl
  drop-drop (suc j) (suc k) [] = rw suc-add refl
  drop-drop j (suc k) (a ∷ entries) = rw suc-add (drop-drop j k entries)

  drop-without_front :
      (entries : List A) → 0 < length entries → without_front entries ≡ drop 1 entries
  drop-without_front [] h = refl
  drop-without_front (a ∷ entries) h = refl

  -- What was dropped before has no part in what is kept later.
  keep_last-append :
      (n : ℕ) (xs ys : List A) → keep_last n (keep_last n xs ++ ys) ≡ keep_last n (xs ++ ys)
  keep_last-append n xs ys =
      let k = length xs - n in
      let within : drop k xs ++ ys ≡ drop k (xs ++ ys) = sym (drop-append k xs ys (omega arith)) in
      let total : k + (length (drop k (xs ++ ys)) - n) ≡ length (xs ++ ys) - n =
        omega (arith, length-drop k (xs ++ ys), length-append xs ys) in
      rw within (drop-drop (length (drop k (xs ++ ys)) - n) k (xs ++ ys) ∙ rw total refl)

  items-push :
      (a : A) (q : Queue A)
      → IsBounded q
      → (push a q).0.items ≡ keep_last q.capacity (q.items ++ (a ∷ []))
  unfolding push
  items-push a q v = elim (Bool-cases (leb q.capacity (length q.items))) [
    | inl full ↦
        let one : length (q.items ++ (a ∷ [])) - q.capacity ≡ 1 =
          omega (tests, v.fits, length-append q.items (a ∷ [])) in
        let held : 0 < length q.items = omega (tests, v.positive) in
        rw (full, one, drop-without_front q.items held) (sym (drop-append 1 q.items (a ∷ []) held))
    | inr room ↦
        let none_over : length (q.items ++ (a ∷ [])) - q.capacity ≡ 0 =
          omega (tests, length-append q.items (a ∷ [])) in
        rw (room, none_over) refl
  ]

  pub capacity-push : (a : A) (q : Queue A) → (push a q).0.capacity ≡ q.capacity
  unfolding push
  capacity-push a q = ground arith

  -- A queue with room for an entry stays within its capacity.
  pub push-IsBounded : (a : A) (q : Queue A) → IsBounded q → IsBounded (push a q).0
  push-IsBounded a q v = record {
    positive = rw capacity-push v.positive;
    fits =
        rw (capacity-push, items-push a q v)
          (omega
            (arith, length-drop (length (q.items ++ (a ∷ [])) - q.capacity) (q.items ++ (a ∷ []))));
  }

  -- The new entry went behind all the others.
  abbrev pub Appends : A → Queue A → Queue A × Bool → Type ℓ
  Appends a q (q', dropped) = (dropped ≡ false) × (q'.items ≡ q.items ++ (a ∷ []))

  -- The oldest entry, and that one alone, was given up for the new one.
  abbrev pub DropsOldest : A → Queue A → Queue A × Bool → Type ℓ
  DropsOldest a q (q', dropped) =
      (oldest : A) × (rest : List A) × (dropped ≡ true)
      × (q.items ≡ oldest ∷ rest)
      × (q'.items ≡ rest ++ (a ∷ []))

  front-cases :
      (entries : List A) → 0 < length entries → (a : A) × (rest : List A) × (entries ≡ a ∷ rest)
  front-cases [] h = absurd (omega arith)
  front-cases (a ∷ rest) h = (a, rest, refl)

  -- `push` answers `false` if it appended the entry, below the capacity, and `true` if it gave up the
  -- oldest entry for it, at the capacity.
  pub push_report :
      (a : A) (q : Queue A)
      → IsBounded q
      → ((length q.items < q.capacity) × Appends a q (push a q))
        ⊎ ((length q.items ≡ q.capacity) × DropsOldest a q (push a q))
  unfolding push
  push_report a q v = elim (Bool-cases (leb q.capacity (length q.items))) [
    | inl full ↦
        let (oldest, rest, e) = front-cases q.items (omega (tests, v.positive)) in
        inr (
          omega (tests, v.fits),
          (oldest, rest, rw full refl, e, rw full (ap (λ t. without_front t ++ (a ∷ [])) e)),
        )
    | inr room ↦ inl (omega tests, (rw room refl, rw room refl))
  ]

  pub IsBounded-new : (capacity : ℕ) → 0 < capacity → IsBounded (new capacity)
  unfolding new
  IsBounded-new capacity h = record { positive = h; fits = omega arith }

  -- A run of pushes keeps the last entries, as many as the capacity, in the order of the pushes.
  pub items-push_all :
      (entries : List A) (q : Queue A)
      → IsBounded q
      → (push_all entries q).items ≡ keep_last q.capacity (q.items ++ entries)
  unfolding push_all
  items-push_all [] q v =
      let none_over : length q.items - q.capacity ≡ 0 = omega (arith, v.fits) in
      rw (append-nil q.items, none_over) refl
  items-push_all (a ∷ entries) q v =
      items-push_all entries (push a q).0 (push-IsBounded a q v)
      ∙ rw (capacity-push, items-push a q v, keep_last-append) (rw append_assoc refl)

  -- The results of `n` calls of `pop_blocking` that find the queue as the call before left it.
  unfoldable pop_times : ℕ → Queue A → List (Popped A)
  pop_times zero q = []
  pop_times (suc n) q = (pop q).0 ∷ pop_times n (pop q).1

  pop_times-items :
      (entries : List A) (capacity : ℕ)
      → pop_times
          (suc (length entries))
          (record { items = entries; capacity = capacity; closed = true })
        ≡ map item entries ++ (ended ∷ [])
  unfolding pop_times pop
  pop_times-items [] capacity = refl
  pop_times-items (a ∷ entries) capacity = ap (◌∷◌ (item a)) (pop_times-items entries capacity)

  closed-push_all : (entries : List A) (q : Queue A) → (push_all entries q).capacity ≡ q.capacity
  unfolding push_all
  closed-push_all [] q = refl
  closed-push_all (a ∷ entries) q = closed-push_all entries (push a q).0 ∙ capacity-push a q

  -- What is pushed onto a new queue before it is closed comes out in order, up to the entries dropped
  -- for want of room: the last ones, as many as the capacity, and then the end; no call waits.
  pop_times-close :
      (entries : List A) (capacity : ℕ)
      → 0 < capacity
      → pop_times
          (suc (length (keep_last capacity entries)))
          (close (push_all entries (new capacity)))
        ≡ map item (keep_last capacity entries) ++ (ended ∷ [])
  unfolding close
  pop_times-close entries capacity h =
      rw (items-push_all entries (new capacity) (IsBounded-new capacity h))
        (unfold new in pop_times-items (keep_last capacity entries) _)
