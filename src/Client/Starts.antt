-- ===== src/Client/Starts.antt =====
-- What the arguments of src/bin/blitzclient.rs make the program do.
use blitz_broker.Common.{
  ◌∙◌, sym, ap, append-nil, ◌++◌, map, All, ℕ, ◌≤◌, ◌<◌, ◌≡◌, refl, inl, inr, Option, none, some,
  List, [], ◌∷◌, arith, ltb, ltb→le, le→ltb, Bool-cases, nat_eq, list_beq, list_eq,
}
use mathlib.Core.Path.{subst}
use blitz_broker.Outcome.{
  Returns-ok_or, Returns, returns_ok, returns_err, Returns-bind, Returns-reject_if, Returns-if,
}
use blitz_broker.Protocol.Packet.{PublishPacket, publish, Str}
use blitz_broker.Main.{parse_unsigned, parse_unsigned-bound}
use blitz_broker.Env.{collect_args}
use blitz_broker.Client.Run
use blitz_broker.Client.Args
use blitz_broker.Client.Args.{
  Arm, Found, Subcommand, pub_to, sub_to, host_option, port_option, topic_option, message_option,
  qos_option, pub_word, sub_word, exit_code, pub_arm, sub_arm, host_arm, port_arm, topic_arm,
  message_arm, qos_arm, other_arm,
}
use blitz_broker.Client.Sessions.{
  linked, replies, answers_to, pub_packets, pub_bytes, run_pub_session,
}
use blitz_broker.Client.Listening.{IsDelivered, line_of, sub_packets, sub_bytes, run_sub_session}

abbrev FitsPort : Option ℕ → Type 0
FitsPort none = Unit
FitsPort (some p) = p < 65536

abbrev IsFound : Found → Type 0
IsFound f = FitsPort f.port × (f.qos ≤ 1)

abbrev pub IsCommand : Subcommand → Type 0
IsCommand (pub_to topic message qos) = qos ≤ 1
IsCommand (sub_to filter) = Unit

below_fits : (val : Option Str) → FitsPort (Args.number_below 65536 val)
below_fits none = tt
below_fits (some s) = fits_parsed (parse_unsigned 65536 s) refl
  where
    fits_parsed : (n : Option ℕ) → parse_unsigned 65536 s ≡ n → FitsPort n
    fits_parsed none e = tt
    fits_parsed (some n) e = parse_unsigned-bound 65536 s n (omega arith) e

take_arm-Returns :
    (a : Arm) (val : Option Str) (f : Found)
    → IsFound f
    → Returns IsFound (λ _. Unit {0}) (Args.take_arm a val f)
unfolding Args.take_arm
take_arm-Returns pub_arm val f h = returns_ok h
take_arm-Returns sub_arm val f h = returns_ok h
take_arm-Returns host_arm val f h = returns_ok h
take_arm-Returns port_arm val f h = returns_ok (below_fits val, h.1)
take_arm-Returns topic_arm val f h = returns_ok h
take_arm-Returns message_arm val f h = returns_ok h
take_arm-Returns qos_arm val f h =
    let qos = Args.or_zero (Args.number_below 256 val) in
    Returns-reject_if (ltb 1 qos) _ tt λ fits. returns_ok (h.0, ltb→le 1 qos fits)
take_arm-Returns other_arm val f h = returns_ok h

scan-Returns :
    (args : List Str) (f : Found) → IsFound f → Returns IsFound (λ _. Unit {0}) (Args.scan args f)
unfolding Args.scan
scan-Returns [] f h = returns_ok h
scan-Returns (arg ∷ []) f h = take_arm-Returns (Args.arm_of arg) none f h
scan-Returns (arg ∷ val ∷ args) f h =
    Returns-bind (take_arm-Returns (Args.arm_of arg) (some val) f h) λ f' h'.
      elim (Bool-cases (Args.takes_value (Args.arm_of arg))) [
        | inl value ↦ rw value (scan-Returns args f' h')
        | inr word ↦ rw word (scan-Returns (val ∷ args) f' h')
      ]

command_of-Returns :
    (word : Option Str) (f : Found)
    → f.qos ≤ 1
    → Returns IsCommand (λ _. Unit {0}) (Args.command_of word f)
unfolding Args.command_of Args.pub_command Args.sub_command
command_of-Returns none f h = returns_err tt
command_of-Returns (some word) f h =
    Returns-if (list_beq word pub_word)
      (λ _. Returns-bind (Returns-ok_or f.pub_topic _ (λ topic e. e) tt) λ topic _.
        Returns-bind (Returns-ok_or f.message _ (λ message e. e) tt) λ message _. returns_ok h)
      λ _.
        Returns-if (list_beq word sub_word)
          (λ _.
            Returns-bind (Returns-ok_or f.sub_filter _ (λ filter e. e) tt)
              λ filter _. returns_ok tt)
          λ _. returns_err tt

-- Whatever the arguments, reading them ends with a message or with a command line; its port is one, and a
-- publish of it is at QoS 0 or 1.
pub client_args-Returns :
    (args : List Str)
    → Returns
        (λ cli. (cli.port < 65536) × IsCommand cli.subcommand)
        (λ _. Unit {0})
        (Args.read_args args)
unfolding Args.read_args
client_args-Returns args =
    Returns-bind (scan-Returns args Args.nothing_found (tt, omega arith)) λ f h.
      Returns-bind (Returns-ok_or f.host _ (λ host e. e) tt) λ host _.
        Returns-bind (Returns-ok_or f.port _ (λ port e. subst FitsPort e h.0) tt) λ port fits.
          Returns-bind (command_of-Returns f.subcmd f h.1)
            λ subcommand command. returns_ok (fits, command)

-- The usage's line for a publish, with all its options.
abbrev pub pub_line : Str → Str → Str → Str → Str → List Str
pub_line host port topic message qos =
    host_option ∷ host ∷ port_option ∷ port ∷ pub_word ∷ topic_option ∷ topic ∷ message_option
    ∷ message ∷ qos_option ∷ qos ∷ []

abbrev pub sub_line : Str → Str → Str → List Str
sub_line host port filter =
    host_option ∷ host ∷ port_option ∷ port ∷ sub_word ∷ topic_option ∷ filter ∷ []

-- Started with the usage's line for a publish, with a port and a QoS of 0 or 1, the client exits with 0 on
-- the answers that the broker gives to its packets, and has then written the CONNECT, a PUBLISH of the
-- message to the topic, and the DISCONNECT.
pub main_publishes :
    (process_id host port_text topic message qos_text : Str) (port qos : ℕ)
    → parse_unsigned 65536 port_text ≡ some port
    → parse_unsigned 256 qos_text ≡ some qos
    → qos ≤ 1
    → Args.main process_id
        (map some (pub_line host port_text topic message qos_text))
        (linked (replies (answers_to (pub_packets process_id topic message qos))) [] [])
      ≡ (linked [] (pub_bytes process_id topic message qos) [], exit_code 0)
unfolding Args.main Args.parse_args Args.read_args collect_args Args.scan Args.take_arm Args.arm_of
    Args.command_of Args.pub_command Args.run blitz_broker.Connection.writer_loop
main_publishes process_id host port_text topic message qos_text port qos hp hq le =
    let session =
      ap (λ ps. Run.run_pub process_id topic message qos (linked (replies ps) [] []))
        (sym (append-nil (answers_to (pub_packets process_id topic message qos))))
      ∙ run_pub_session process_id topic message qos [] le in
    rw (hp, hq, le→ltb 1 qos le) (λ i. let (t, r) = session i in (t, Args.exit_of r))

-- Started with the usage's line for a subscription, with a port, the client prints the publishes that the
-- broker delivers behind its answers, in their order and each once, their payloads as `from_utf8_lossy` makes
-- them text, and exits with 0 at the end of the connection, if no write to the socket or to the standard
-- output or error fails.
pub main_prints :
    (process_id host port_text filter : Str) (port : ℕ) (ps : List PublishPacket)
    → parse_unsigned 65536 port_text ≡ some port
    → All IsDelivered ps
    → Args.main process_id
        (map some (sub_line host port_text filter))
        (linked (replies (answers_to (sub_packets process_id filter) ++ map publish ps)) [] [])
      ≡ (linked [] (sub_bytes process_id filter) (map line_of ps), exit_code 0)
unfolding Args.main Args.parse_args Args.read_args collect_args Args.scan Args.take_arm Args.arm_of
    Args.command_of Args.sub_command Args.run
main_prints process_id host port_text filter port ps hp h =
    let session = run_sub_session process_id filter ps h in
    rw hp (λ i. let (t, r) = session i in (t, Args.exit_of r))
