-- ===== src/Queue.antt =====
-- src/queue.rs: the bounded queue that drops its oldest entry. The lock on `items` makes each call one
-- step on the state; what is not one step, the wait for an entry, is in Queue/Wakeup.
pub mod Order
pub mod Wakeup
use blitz_broker.Common.{
  ℕ, Bool, true, false, List, [], ◌∷◌, ◌++◌, leb, if◌then◌else◌, length, nat_eq, list_eq,
}

-- `BoundedDropOldestQueue`. The head of `items` is the front of the `VecDeque`.
pub record Queue {ℓ} (A : Type ℓ) : Type ℓ where
  pub items : List A
  pub capacity : ℕ
  pub closed : Bool

-- One pass of the loop of `pop_blocking`: an item, the end, or a wait on the condition variable.
pub data Popped {ℓ} (A : Type ℓ) : Type ℓ where
  item : A → Popped A
  ended waits : Popped A

module _ {ℓ} {A : Type ℓ} where
  unfoldable pub new : ℕ → Queue A
  new capacity = record { items = []; capacity = capacity; closed = false }

  -- `VecDeque::pop_front`, its value dropped
  abbrev pub without_front : List A → List A
  without_front [] = []
  without_front (a ∷ items) = items

  -- The new state, and whether an entry was dropped.
  unfoldable pub push : A → Queue A → Queue A × Bool
  push a q =
      if leb q.capacity (length q.items)
      then (record q { items = without_front q.items ++ (a ∷ []) }, true)
      else (record q { items = q.items ++ (a ∷ []) }, false)

  unfoldable pub pop_front : List A → Queue A → Popped A × Queue A
  pop_front [] q = (if q.closed then ended else waits, q)
  pop_front (a ∷ items) q = (item a, record q { items = items })

  unfoldable pub pop : Queue A → Popped A × Queue A
  unfolding pop_front
  pop q = pop_front q.items q

  unfoldable pub close : Queue A → Queue A
  close q = record q { closed = true }

  -- A producer that pushes one entry after another.
  unfoldable pub push_all : List A → Queue A → Queue A
  push_all [] q = q
  push_all (a ∷ more) q = push_all more (push a q).0
