-- ===== src/Connection/Reader.antt =====
-- The reader of src/connection.rs: what the loops over the bytes of a connection do, as a relation.
pub mod Chunks
pub mod Packets
pub mod Leaves
use blitz_broker.Common.{
  ℕ, zero, suc, ◌≤◌, ◌<◌, ◌≡◌, refl, sym, ap, ◌∙◌, inl, inr, true, false, List, [], ◌++◌,
  append_assoc, arith, leb, le→leb, Bool-cases, length, drop, All, length-append, length-drop,
  drop-append, All-drop, IsByte, nat_eq, list_eq,
}
use blitz_broker.Slice.{slice_from}
use blitz_broker.Outcome.{Returns-cases, Outcome, ok, err, ◌>>=◌}
use blitz_broker.Error.{ProtocolError, incomplete}
use blitz_broker.Protocol.Packet.{MqttPacket}
use blitz_broker.Protocol.Decode.{decode}
use blitz_broker.Protocol.Stream.{decode-append}
use blitz_broker.Protocol.Settles.{decode-Returns}
use blitz_broker.Broker.{ConnectionId, QueueHandle}
use blitz_broker.Connection.{
  Effect, Drained, waiting, closed, dispatch_packet, is_incomplete, tear_down, drain,
}

incomplete_only : (e : ProtocolError) → is_incomplete e ≡ true → e ≡ incomplete
incomplete_only incomplete h = refl
incomplete_only e h = cc

fatal_only :
    (e : ProtocolError)
    → is_incomplete e ≡ false
    → ¬ (◌≡◌ {A = Outcome ProtocolError (MqttPacket × ℕ)} (err e) (err incomplete))
fatal_only e fatal same = let s : e ≡ incomplete = cc in cc (rw s at fatal)

module _ (id : ConnectionId) (outbound : QueueHandle) where
  -- What the inner loop does with a buffer: its effects, and how it ends.
  pub data Drains : List ℕ → List Effect → Drained → Type 0 where
    waits : {buf : List ℕ} → decode buf ≡ err incomplete → Drains buf [] (waiting buf)
    fails :
        {buf : List ℕ} {e : ProtocolError}
        → decode buf ≡ err e
        → is_incomplete e ≡ false
        → Drains buf (tear_down id) closed
    leaves :
        {buf : List ℕ} {p : MqttPacket} {n : ℕ}
        → decode buf ≡ ok (p, n)
        → (dispatch_packet id outbound p).1 ≡ false
        → n ≤ length buf
        → Drains buf ((dispatch_packet id outbound p).0 ++ tear_down id) closed
    goes_on :
        {buf : List ℕ} {p : MqttPacket} {n : ℕ} {effects : List Effect} {end : Drained}
        → decode buf ≡ ok (p, n)
        → (dispatch_packet id outbound p).1 ≡ true
        → 0 < n
        → n ≤ length buf
        → Drains (drop n buf) effects end
        → Drains buf ((dispatch_packet id outbound p).0 ++ effects) end

  -- The loop, with fuel for more turns than the buffer has bytes, does what the relation says.
  pub Drains-drain :
      (fuel : ℕ) {buf : List ℕ} {effects : List Effect} {end : Drained}
      → length buf < fuel
      → Drains buf effects end
      → drain id outbound fuel buf ≡ ok (effects, end)
  unfolding drain slice_from
  Drains-drain zero h d = absurd (omega arith)
  Drains-drain (suc fuel) {buf} h (waits e) = rw (drain, e) refl
  Drains-drain (suc fuel) {buf} h (fails {e} same fatal) = rw (drain, same, fatal) refl
  Drains-drain (suc fuel) {buf} h (leaves {p} {n} e stop fits) =
      rw (drain, e, le→leb n (length buf) fits, stop) refl
  Drains-drain (suc fuel) {buf} h (goes_on {p} {n} {effects} {end} e more some_bytes fits d) =
      rw (drain, e, le→leb n (length buf) fits, more)
        (rw (Drains-drain fuel (omega (arith, length-drop n buf)) d) refl)

  -- Every buffer of bytes is drained in some way.
  pub drains :
      (fuel : ℕ) (buf : List ℕ)
      → length buf < fuel
      → All IsByte buf
      → (effects : List Effect) × (end : Drained) × Drains buf effects end
  drains zero buf h hb = absurd (omega arith)
  drains (suc fuel) buf h hb = elim (Returns-cases (decode-Returns buf hb)) [
    | inl ((p, n), e, (from_client, at_least, fits)) ↦
        elim (Bool-cases (dispatch_packet id outbound p).1) [
          | inl more ↦
              let (effects, end, d) =
                drains fuel (drop n buf) (omega (arith, length-drop n buf))
                  (All-drop IsByte n buf hb) in
              (_, end, goes_on e more (omega arith) fits d)
          | inr stop ↦ (_, closed, leaves e stop fits)
        ]
    | inr (e, failed, any) ↦ elim (Bool-cases (is_incomplete e)) [
      | inl short ↦ ([], waiting buf, waits (failed ∙ ap err (incomplete_only e short)))
      | inr fatal ↦ (tear_down id, closed, fails failed fatal)
    ]
  ]

  -- What is left of a buffer is bytes, if the buffer is.
  pub Drains-IsByte :
      {buf rest : List ℕ} {effects : List Effect} {end : Drained}
      → Drains buf effects end
      → end ≡ waiting rest
      → All IsByte buf
      → All IsByte rest
  Drains-IsByte {buf} {rest} (waits e) same hb =
      let here : buf ≡ rest = cc in mathlib.Core.Path.subst (All IsByte) here hb
  Drains-IsByte (fails e fatal) same hb = cc
  Drains-IsByte (leaves e stop fits) same hb = cc
  Drains-IsByte {buf} (goes_on {n} e more some_bytes fits d) same hb =
      Drains-IsByte d same (All-drop IsByte n buf hb)

  -- Bytes that come after a buffer that ends the connection change nothing.
  pub Drains-closed :
      {buf : List ℕ} {effects : List Effect} {end : Drained} (later : List ℕ)
      → Drains buf effects end
      → end ≡ closed
      → All IsByte buf
      → All IsByte later
      → Drains (buf ++ later) effects closed
  Drains-closed later (waits e) same hb hl = cc
  Drains-closed {buf} later (fails {e} failed fatal) same hb hl =
      fails (decode-append buf later hb hl (λ h. fatal_only e fatal (sym failed ∙ h)) ∙ failed)
        fatal
  Drains-closed {buf} later (leaves {p} {n} e stop fits) same hb hl =
      leaves (decode-append buf later hb hl (λ h. cc) ∙ e) stop
        (omega (arith, length-append buf later))
  Drains-closed {buf} later (goes_on {p} {n} {effects} {end} e more some_bytes fits d) same hb hl =
      goes_on (decode-append buf later hb hl (λ h. cc) ∙ e) more some_bytes
        (omega (arith, length-append buf later))
        (rw (drop-append n buf later fits)
          (Drains-closed later d same (All-drop IsByte n buf hb) hl))

  -- Bytes that come after a buffer that waits are drained behind what is left of it.
  pub Drains-waiting :
      {buf rest : List ℕ} {before effects : List Effect} {end end' : Drained} (later : List ℕ)
      → Drains buf before end
      → end ≡ waiting rest
      → All IsByte buf
      → All IsByte later
      → Drains (rest ++ later) effects end'
      → Drains (buf ++ later) (before ++ effects) end'
  Drains-waiting {buf} {rest} {before} {effects} {end} {end'} later (waits e) same hb hl d' =
      let here : rest ≡ buf = cc in
      mathlib.Core.Path.subst (λ b. Drains (b ++ later) effects end') here d'
  Drains-waiting later (fails e fatal) same hb hl d' = cc
  Drains-waiting later (leaves e stop fits) same hb hl d' = cc
  Drains-waiting {buf} later (goes_on {p} {n} {effects} {end} e more some_bytes fits d) same hb hl
        d' =
      rw append_assoc (
        goes_on (decode-append buf later hb hl (λ h. cc) ∙ e) more some_bytes
          (omega (arith, length-append buf later))
          (rw (drop-append n buf later fits)
            (Drains-waiting later d same (All-drop IsByte n buf hb) hl d')))
