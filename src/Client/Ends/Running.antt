-- ===== src/Client/Ends/Running.antt =====
-- src/bin/blitzclient.rs: `run_pub`, `run_sub` and `main` end, whatever comes.
use blitz_broker.Common.{
  map, not, some, true, false, map, Option, zero, suc, ◌<◌, ◌==◌, [], ◌∷◌, ℕ, ◌+◌, ◌≤◌, ◌≡◌, refl,
  inl, inr, List, arith, Bool-cases, length, All, IsByte, nat_eq, list_eq,
}
use blitz_broker.Outcome.{Outcome, returns_ok, returns_err, Returns-cases, Returns-forget}
use blitz_broker.Client.Decode.{ClientError}
use blitz_broker.Client.Socket.{Socket, ◌>>◌, print_line, print_next}
use blitz_broker.Client.Settles.{
  Settles, decode_publish_body-Settles, decode_connack_body-Settles, decode_suback_body-Settles,
  decode_puback_body-Settles,
}
use blitz_broker.Env.{collect_args, collect_args-some}
use blitz_broker.Client.Run
use blitz_broker.Client.Args
use blitz_broker.Client.Args.{exit_code, pub_to, sub_to}
use blitz_broker.Client.Starts.{client_args-Returns}
use blitz_broker.Protocol.Packet.{Str, pt_connack, pt_publish, pt_puback, pt_suback}
use blitz_broker.Client.Ends.{
  ok, false, Bool, IsCalm, Ends, ends_ok, ends_err, Anything, Ends-behind, Ends-weaken, Ends-done,
  Ends-and_then, Ends-bind, Ends-lift, Ends-fail_if, Ends-dial, Ends-write_all,
}
use blitz_broker.Client.Ends.Reading.{IsPacket, Ends-read_packet}

Ends-expect :
    (packet_type : ℕ) (s : Socket)
    → IsCalm s
    → Ends 0 (length s.incoming) (All IsByte) (Run.expect packet_type s)
unfolding Run.expect
Ends-expect packet_type s hb = Ends-weaken (
    Ends-bind {m = 0} (Ends-read_packet s hb) λ s1 (pkt_type, flags, body) hb1 h.
      Ends-bind {m = 0} (Ends-fail_if (not (pkt_type == packet_type)) _ s1 hb1)
        λ s2 _ hb2 _. ends_ok (hb2, omega arith) h)

Ends-connect_to_broker :
    (process_id : Str) (s : Socket)
    → IsCalm s
    → Ends 0 (length s.incoming) Anything (Run.connect_to_broker process_id s)
unfolding Run.connect_to_broker
Ends-connect_to_broker process_id s hb = Ends-bind {m = 0} (Ends-dial s hb) λ s1 _ hb1 _.
    Ends-bind {m = 0} (Ends-write_all _ _ s1 hb1) λ s2 _ hb2 _.
      Ends-bind {m = 0} (Ends-expect pt_connack s2 hb2) λ s3 body hb3 h.
        Ends-bind {m = 0} (Ends-lift s3 hb3 (decode_connack_body-Settles body h))
          λ s4 (_, code) hb4 _. Ends-done (Ends-fail_if (not (code == 0)) _ s4 hb4)

Ends-await_ack :
    (packet_id : ℕ) (s : Socket)
    → IsCalm s
    → Ends 0 (length s.incoming) Anything (Run.await_ack (some packet_id) s)
unfolding Run.await_ack
Ends-await_ack packet_id s hb =
    Ends-bind {n = 0} {m = 0} (Ends-expect pt_puback s hb) λ s1 body hb1 h.
      Ends-bind {m = 0} (Ends-lift s1 hb1 (decode_puback_body-Settles body h))
        λ s2 acked hb2 _. Ends-done (Ends-fail_if (not (acked == packet_id)) _ s2 hb2)

Ends-run_pub :
    (process_id topic message : Str) (qos : ℕ) (s : Socket)
    → IsCalm s
    → Ends 0 (length s.incoming) Anything (Run.run_pub process_id topic message qos s)
unfolding Run.run_pub
Ends-run_pub process_id topic message qos s hb =
    Ends-bind {m = 0} (Ends-connect_to_broker process_id s hb) λ s1 _ hb1 _.
      Ends-bind {m = 0} (Ends-write_all _ _ s1 hb1) λ s2 _ hb2 _. elim (Bool-cases (qos == 1)) [
        | inl acked ↦
            rw acked
              (Ends-bind {m = 0} (Ends-await_ack 1 s2 hb2) λ s3 _ hb3 _. Ends-write_all _ _ s3 hb3)
        | inr quiet ↦ rw quiet (Ends-write_all _ _ s2 hb2)
      ]

Ends-await_suback :
    (packet_id : ℕ) (s : Socket)
    → IsCalm s
    → Ends 0 (length s.incoming) Anything (Run.await_suback packet_id s)
unfolding Run.await_suback Run.check_granted
Ends-await_suback packet_id s hb = Ends-bind {m = 0} (Ends-expect pt_suback s hb) λ s1 body hb1 h.
    Ends-bind {m = 0} (Ends-lift s1 hb1 (decode_suback_body-Settles body h))
      λ s2 (suback_pid, codes) hb2 _.
        Ends-bind {m = 0} (Ends-fail_if (not (suback_pid == packet_id)) _ s2 hb2)
          λ s3 _ hb3 _. granted codes s3 hb3
  where
    granted :
        (codes : List ℕ) (t : Socket)
        → IsCalm t
        → Ends 0 (length t.incoming) Anything (Run.check_granted codes t)
    granted [] t ht = ends_err (ht, omega arith)
    granted (code ∷ codes) t ht = Ends-done (Ends-fail_if (code == 0x80) _ t ht)

Ends-print_next :
    (failures : List Bool) (topic text : Str) (s : Socket)
    → All IsByte s.incoming
    → All (λ fails. fails ≡ false) failures
    → s.print_failures ≡ failures
    → Ends 0 (length s.incoming) Anything (print_next failures topic text s)
Ends-print_next [] topic text s hb calm same = ends_ok ((hb, rw same tt), omega arith) tt
Ends-print_next (true ∷ failures) topic text s hb calm same = absurd (cc)
Ends-print_next (false ∷ failures) topic text s hb calm same =
    ends_ok ((hb, calm.1), omega arith) tt

Ends-print_line :
    (topic text : Str) (s : Socket)
    → IsCalm s
    → Ends 0 (length s.incoming) Anything (print_line topic text s)
unfolding print_line
Ends-print_line topic text s hb = Ends-print_next s.print_failures topic text s hb.0 hb.1 refl

Ends-show_packet :
    (packet : ℕ × ℕ × List ℕ) (s : Socket)
    → IsCalm s
    → IsPacket packet
    → Ends 0 (length s.incoming) Anything (Run.show_packet packet s)
unfolding Run.show_packet Run.print_publish
Ends-show_packet (pkt_type, flags, body) s hb h = elim (Bool-cases (pkt_type == pt_publish)) [
  | inl is_publish ↦ rw is_publish (prints (decode_publish_body-Settles flags body h))
  | inr other ↦ rw other (ends_ok (hb, omega arith) tt)
]
  where
    prints :
        {r : Outcome ClientError (Str × List ℕ × ℕ × Option ℕ)}
        → Settles Anything r
        → Ends 0 (length s.incoming) Anything (Run.print_publish r s)
    prints (returns_ok {a = (topic, payload, _, _)} _) = Ends-print_line topic _ s hb
    prints (returns_err _) = ends_ok (hb, omega arith) tt

Ends-listen :
    (fuel : ℕ) (s : Socket)
    → IsCalm s
    → length s.incoming < fuel
    → Ends 0 (length s.incoming) Anything (Run.listen fuel s)
unfolding Run.listen
Ends-listen zero s hb enough = absurd (omega arith)
Ends-listen (suc fuel) s hb enough = turn (Ends-read_packet s hb) (Ends-listen fuel)
  where
    turn :
        {r : Socket × Outcome ClientError (ℕ × ℕ × List ℕ)}
        → Ends 1 (length s.incoming) IsPacket r
        → ((t : Socket)
            → IsCalm t
            → length t.incoming < fuel
            → Ends 0 (length t.incoming) Anything (Run.listen fuel t))
        → Ends 0
            (length s.incoming)
            Anything
            (Run.unless_closed r λ packet. Run.show_packet packet >> Run.listen fuel)
    turn (ends_ok {s = t} (ht, gone) h) next = Ends-weaken (
        Ends-behind 1
          (Ends-and_then {m = 0} (Ends-show_packet _ t ht h)
            λ t' _ (ht', fewer) _. next t' ht' (omega (arith, gone, fewer, enough)))
          gone)
    turn (ends_err (ht, gone)) next = ends_ok (ht, gone) tt

Ends-run_sub :
    (process_id filter : Str) (s : Socket)
    → IsCalm s
    → Ends 0 (length s.incoming) Anything (Run.run_sub process_id filter s)
unfolding Run.run_sub Run.listen_all
Ends-run_sub process_id filter s hb =
    Ends-bind {m = 0} (Ends-connect_to_broker process_id s hb) λ s1 _ hb1 _.
      Ends-bind {m = 0} (Ends-write_all _ _ s1 hb1) λ s2 _ hb2 _.
        Ends-bind {m = 0} (Ends-await_suback 1 s2 hb2)
          λ s3 _ hb3 _. Ends-listen (length s3.incoming + 1) s3 hb3 (omega arith)

-- Whatever the arguments, if they are Unicode, whether or not the broker is there, whatever bytes it sends
-- before the connection closes, and whichever writes to the socket fail: the client ends with the exit code 0
-- or 1, so long as no write to the standard output, or of the log to the standard error, fails. It does not
-- panic, and its loops come to an end.
pub main_exits :
    (process_id : Str) (args : List Str) (s : Socket)
    → All IsByte s.incoming
    → All (λ fails. fails ≡ false) s.print_failures
    → (code : ℕ) × (code ≤ 1) × ((Args.main process_id (map some args) s).1 ≡ exit_code code)
unfolding Args.main Args.run Args.parse_args
main_exits process_id args s bytes calm =
    elim (Returns-cases (Returns-forget (client_args-Returns args))) [
      | inl (cli, same, _) ↦ rw (collected, same) (ran cli.subcommand)
      | inr (e, same, _) ↦ rw (collected, same) (1, omega arith, refl)
    ]
  where
    collected : collect_args {E = Args.UsageError} (map some args) ≡ ok args
    collected = collect_args-some {E = Args.UsageError} args

    exits :
        {r : Socket × Outcome ClientError (Unit {0})}
        → Ends 0 (length s.incoming) Anything r
        → (code : ℕ) × (code ≤ 1) × (Args.exit_of r.1 ≡ exit_code code)
    exits (ends_ok _ _) = (0, omega arith, refl)
    exits (ends_err _) = (1, omega arith, refl)

    ran :
        (command : Args.Subcommand)
        → (code : ℕ) × (code ≤ 1)
          × (Args.exit_of (Args.run process_id command s).1 ≡ exit_code code)
    ran (pub_to topic message qos) =
        exits (Ends-run_pub process_id topic message qos s (bytes, calm))
    ran (sub_to filter) = exits (Ends-run_sub process_id filter s (bytes, calm))
