-- ===== src/Connection/Reader/Chunks.antt =====
-- The whole loop of the reader in src/connection.rs, over the pieces in which the bytes arrive.
use blitz_broker.Common.{
  ℕ, suc, ◌≡◌, refl, sym, ap, ◌∙◌, ◌⊎◌, inl, inr, Bool, true, false, Option, none, some, List, [],
  ◌∷◌, ◌++◌, append-nil, append_assoc, arith, ◌==◌, Bool-cases, length, All, All-append, IsByte,
  nat_eq, list_eq,
}
use blitz_broker.Outcome.{Outcome, ok, ◌>>=◌}
use blitz_broker.Error.{ProtocolError}
use blitz_broker.Protocol.Packet.{
  Str, MqttPacket, connect, conn_ack, subscribe, sub_ack, unsubscribe, unsub_ack, publish, pub_ack,
  ping_req, ping_resp, disconnect,
}
use blitz_broker.Broker.{ConnectionId, QueueHandle, disconnect_client}
use blitz_broker.Connection.{
  acknowledge, Effect, to_broker, close_outbound, Drained, waiting, closed, dispatch_packet,
  dispatch_subscriptions, dispatch_unsubscriptions, tear_down, reader_loop,
}
use blitz_broker.Connection.Reader.{
  Drains, waits, fails, leaves, goes_on, drains, Drains-drain, Drains-IsByte, Drains-closed,
  Drains-waiting,
}

-- Whether an effect is one of those that end a connection.
abbrev is_last : Effect → Bool
is_last (to_broker (disconnect_client id)) = true
is_last close_outbound = true
is_last effect = false

abbrev pub IsMiddle : Effect → Type 0
IsMiddle effect = is_last effect ≡ false

subscriptions-IsMiddle :
    (id : ConnectionId) (subscriptions : List (Str × ℕ))
    → All IsMiddle (dispatch_subscriptions id subscriptions).0
unfolding dispatch_subscriptions
subscriptions-IsMiddle id [] = tt
subscriptions-IsMiddle id ((topic, qos) ∷ subscriptions) =
    (refl, subscriptions-IsMiddle id subscriptions)

unsubscriptions-IsMiddle :
    (id : ConnectionId) (topic_filters : List Str)
    → All IsMiddle (dispatch_unsubscriptions id topic_filters)
unfolding dispatch_unsubscriptions
unsubscriptions-IsMiddle id [] = tt
unsubscriptions-IsMiddle id (topic ∷ topic_filters) =
    (refl, unsubscriptions-IsMiddle id topic_filters)

acknowledge-IsMiddle : (packet_id : Option ℕ) → All IsMiddle (acknowledge packet_id)
acknowledge-IsMiddle none = tt
acknowledge-IsMiddle (some packet_id) = (refl, tt)

dispatch-IsMiddle :
    (id : ConnectionId) (outbound : QueueHandle) (p : MqttPacket)
    → All IsMiddle (dispatch_packet id outbound p).0
unfolding dispatch_packet
dispatch-IsMiddle id outbound (connect c) = (refl, (refl, tt))
dispatch-IsMiddle id outbound (subscribe s) =
    All-append IsMiddle _ _ (subscriptions-IsMiddle id s.subscriptions) (refl, tt)
dispatch-IsMiddle id outbound (unsubscribe u) =
    All-append IsMiddle _ _ (unsubscriptions-IsMiddle id u.topic_filters) (refl, tt)
dispatch-IsMiddle id outbound (publish p) = elim (Bool-cases (p.qos == 1)) [
  | inl acked ↦ rw acked (All-append IsMiddle _ _ (acknowledge-IsMiddle p.packet_id) (refl, tt))
  | inr quiet ↦ rw quiet (refl, tt)
]
dispatch-IsMiddle id outbound (pub_ack a) = tt
dispatch-IsMiddle id outbound ping_req = (refl, tt)
dispatch-IsMiddle id outbound disconnect = tt
dispatch-IsMiddle id outbound (conn_ack a) = tt
dispatch-IsMiddle id outbound (sub_ack a) = tt
dispatch-IsMiddle id outbound (unsub_ack a) = tt
dispatch-IsMiddle id outbound ping_resp = tt

abbrev pub concat : List (List ℕ) → List ℕ
concat [] = []
concat (chunk ∷ chunks) = chunk ++ concat chunks

concat-IsByte : (chunks : List (List ℕ)) → All (All IsByte) chunks → All IsByte (concat chunks)
concat-IsByte [] h = tt
concat-IsByte (chunk ∷ chunks) h =
    All-append IsByte chunk (concat chunks) h.0 (concat-IsByte chunks h.1)

module _ (id : ConnectionId) (outbound : QueueHandle) where
  -- The effects of a buffer that waits have nothing that ends the connection; those of one that does not
  -- wait end with the tear-down, and have it there alone.
  abbrev EndsAs : List Effect → Drained → Type 0
  EndsAs effects (waiting rest) = All IsMiddle effects
  EndsAs effects closed =
      (front : List Effect) × (effects ≡ front ++ tear_down id) × All IsMiddle front

  EndsAs-append :
      (before effects : List Effect) (end : Drained)
      → All IsMiddle before
      → EndsAs effects end
      → EndsAs (before ++ effects) end
  EndsAs-append before effects (waiting rest) h e = All-append IsMiddle before effects h e
  EndsAs-append before effects closed h (front, same, hf) =
      (before ++ front, rw (same, append_assoc) refl, All-append IsMiddle before front h hf)

  Drains-EndsAs :
      {buf : List ℕ} {effects : List Effect} {end : Drained}
      → Drains id outbound buf effects end
      → EndsAs effects end
  Drains-EndsAs (waits e) = tt
  Drains-EndsAs (fails e fatal) = ([], refl, tt)
  Drains-EndsAs (leaves {p} e stop fits) = (_, refl, dispatch-IsMiddle id outbound p)
  Drains-EndsAs (goes_on {p} {n} {effects} {end} e more some_bytes fits d) =
      EndsAs-append _ effects end (dispatch-IsMiddle id outbound p) (Drains-EndsAs d)

  end_cases : (end : Drained) → ((rest : List ℕ) × (end ≡ waiting rest)) ⊎ (end ≡ closed)
  end_cases (waiting rest) = inl (rest, refl)
  end_cases closed = inr refl

  -- One turn of the outer loop.
  turn :
      (chunks : List (List ℕ)) (buf chunk : List ℕ) (effects : List Effect) (end : Drained)
      → Drains id outbound (buf ++ chunk) effects end
      → reader_loop id outbound buf (chunk ∷ chunks)
        ≡ elim end as (λ _. Outcome ProtocolError (List Effect)) [
          | waiting rest ↦ reader_loop id outbound rest chunks >>= λ more. ok (effects ++ more)
          | closed ↦ ok effects
        ]
  unfolding reader_loop
  turn chunks buf chunk effects end d =
      rw (Drains-drain id outbound (suc (length (buf ++ chunk))) (omega arith) d) refl

  -- Whatever bytes arrive, in whatever pieces, the reader ends, with no panic: it tells the broker of the
  -- disconnection once, as its last message, and then closes the outbound queue, once.
  pub reader_ends :
      (chunks : List (List ℕ)) (buf : List ℕ)
      → All IsByte buf
      → All (All IsByte) chunks
      → (front : List Effect) × (reader_loop id outbound buf chunks ≡ ok (front ++ tear_down id))
        × All IsMiddle front
  unfolding reader_loop
  reader_ends [] buf hb hc = ([], refl, tt)
  reader_ends (chunk ∷ chunks) buf hb hc =
      let whole = All-append IsByte buf chunk hb hc.0 in
      let (effects, end, d) =
        drains id outbound (suc (length (buf ++ chunk))) (buf ++ chunk) (omega arith) whole in
      elim (end_cases end) [
        | inl (rest, same) ↦
            let d' = mathlib.Core.Path.subst (Drains id outbound (buf ++ chunk) effects) same d in
            let (front, ran, middle) =
              reader_ends chunks rest (Drains-IsByte id outbound d' refl whole) hc.1 in
            (
              effects ++ front,
              turn chunks buf chunk effects (waiting rest) d' ∙ rw (ran, append_assoc) refl,
              All-append IsMiddle effects front (Drains-EndsAs d') middle,
            )
        | inr same ↦
            let d' = mathlib.Core.Path.subst (Drains id outbound (buf ++ chunk) effects) same d in
            let (front, last, middle) = Drains-EndsAs d' in
            (front, turn chunks buf chunk effects closed d' ∙ ap ok last, middle)
      ]

  -- A turn that waits, and one on what it left with more behind, are one turn on all of it.
  two_turns :
      (buf chunk total rest : List ℕ) (effects : List Effect)
      → All IsByte (buf ++ chunk)
      → All IsByte total
      → All IsByte rest
      → Drains id outbound (buf ++ chunk) effects (waiting rest)
      → (reader_loop id outbound rest (total ∷ []) >>= λ more. ok (effects ++ more))
        ≡ reader_loop id outbound buf ((chunk ++ total) ∷ [])
  unfolding reader_loop
  two_turns buf chunk total rest effects whole later left d =
      let both = All-append IsByte rest total left later in
      let (more, end, d') =
        drains id outbound (suc (length (rest ++ total))) (rest ++ total) (omega arith) both in
      let all =
        mathlib.Core.Path.subst (λ b. Drains id outbound b (effects ++ more) end)
          (append_assoc buf chunk total) (Drains-waiting id outbound total d refl whole later d') in
      rw (turn [] rest total more end d', turn [] buf (chunk ++ total) (effects ++ more) end all)
        (elim (end_cases end) [
          | inl (r, same) ↦ rw (same, append_assoc) refl
          | inr same ↦ rw same refl
        ])

  -- How the bytes of a connection are cut into pieces has no part in what the reader does.
  pub reader_chunks :
      (chunk : List ℕ) (chunks : List (List ℕ)) (buf : List ℕ)
      → All IsByte buf
      → All (All IsByte) (chunk ∷ chunks)
      → reader_loop id outbound buf (chunk ∷ chunks)
        ≡ reader_loop id outbound buf (concat (chunk ∷ chunks) ∷ [])
  reader_chunks chunk [] buf hb hc = rw (append-nil) refl
  reader_chunks chunk (next ∷ chunks) buf hb hc =
      let total = next ++ concat chunks in
      let whole = All-append IsByte buf chunk hb hc.0 in
      let later : All IsByte total = concat-IsByte (next ∷ chunks) hc.1 in
      let (effects, end, d) =
        drains id outbound (suc (length (buf ++ chunk))) (buf ++ chunk) (omega arith) whole in
      elim (end_cases end) [
        | inl (rest, same) ↦
            let d' = mathlib.Core.Path.subst (Drains id outbound (buf ++ chunk) effects) same d in
            let left = Drains-IsByte id outbound d' refl whole in
            turn (next ∷ chunks) buf chunk effects (waiting rest) d'
            ∙ ap (λ o. o >>= λ more. ok (effects ++ more))
                (reader_chunks next chunks rest left hc.1)
            ∙ two_turns buf chunk total rest effects whole later left d'
        | inr same ↦
            let d' = mathlib.Core.Path.subst (Drains id outbound (buf ++ chunk) effects) same d in
            let all =
              mathlib.Core.Path.subst (λ b. Drains id outbound b effects closed)
                (append_assoc buf chunk total)
                (Drains-closed id outbound total d' refl whole later) in
            turn (next ∷ chunks) buf chunk effects closed d'
            ∙ sym (turn [] buf (chunk ++ total) effects closed all)
      ]
