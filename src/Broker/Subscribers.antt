-- ===== src/Broker/Subscribers.antt =====
-- Lists of connection ids in src/broker.rs: `contains`, `push` and `retain` on them.
use blitz_broker.Common.{
  ◌≡◌, refl, inl, inr, false, not, ◌&&◌, ◌||◌, List, [], ◌∷◌, ◌++◌, arith, ◌==◌, ==_iff, Bool-cases,
  nat_eq, contains, list_eq,
}
use blitz_broker.Broker.{ConnectionId, add_subscriber, drop_subscriber}

-- No id twice.
abbrev pub NoRepeat : List ConnectionId → Type 0
NoRepeat [] = Unit
NoRepeat (id ∷ ids) = (contains ids id ≡ false) × NoRepeat ids

pub contains-append :
    (ids more : List ConnectionId) (id : ConnectionId)
    → contains (ids ++ more) id ≡ (contains ids id || contains more id)
contains-append [] more id = refl
contains-append (sid ∷ ids) more id = ground (arith, contains-append ids more id)

pub append-NoRepeat :
    (ids : List ConnectionId) (id : ConnectionId)
    → NoRepeat ids
    → contains ids id ≡ false
    → NoRepeat (ids ++ (id ∷ []))
append-NoRepeat [] id h new = (refl, tt)
append-NoRepeat (sid ∷ ids) id h new = (
  ground (arith, ==_iff sid id, ==_iff id sid, contains-append ids (id ∷ []) sid),
  append-NoRepeat ids id h.1 (ground arith),
)

pub contains-drop_subscriber :
    (id sid : ConnectionId) (ids : List ConnectionId)
    → contains (drop_subscriber id ids) sid ≡ (contains ids sid && not (id == sid))
unfolding drop_subscriber
contains-drop_subscriber id sid [] = refl
contains-drop_subscriber id sid (one ∷ ids) =
    ground
      (arith, ==_iff one id, ==_iff id sid, ==_iff one sid, contains-drop_subscriber id sid ids)

pub drop_subscriber-NoRepeat :
    (id : ConnectionId) (ids : List ConnectionId) → NoRepeat ids → NoRepeat (drop_subscriber id ids)
unfolding drop_subscriber
drop_subscriber-NoRepeat id [] h = tt
drop_subscriber-NoRepeat id (sid ∷ ids) h = elim (Bool-cases (sid == id)) [
  | inl same ↦ rw same (drop_subscriber-NoRepeat id ids h.1)
  | inr other ↦
      rw other
        (rw (contains-drop_subscriber id sid ids, h.0) refl, drop_subscriber-NoRepeat id ids h.1)
]

pub add_subscriber-NoRepeat :
    (id : ConnectionId) (ids : List ConnectionId) → NoRepeat ids → NoRepeat (add_subscriber id ids)
unfolding add_subscriber
add_subscriber-NoRepeat id ids h = elim (Bool-cases (contains ids id)) [
  | inl held ↦ rw held h
  | inr new ↦ rw new (append-NoRepeat ids id h new)
]

pub contains-add_subscriber :
    (id sid : ConnectionId) (ids : List ConnectionId)
    → contains (add_subscriber id ids) sid ≡ (contains ids sid || id == sid)
unfolding add_subscriber
contains-add_subscriber id sid ids = elim (Bool-cases (contains ids id)) [
  | inl held ↦ elim (Bool-cases (id == sid)) [
    | inl same ↦
        let e : id ≡ sid = (==_iff id sid).0 same in rw (held, same) (ground (arith, rw e at held))
    | inr other ↦ rw (held, other) (ground arith)
  ]
  | inr new ↦ rw (new, contains-append ids (id ∷ []) sid) (ground arith)
]
