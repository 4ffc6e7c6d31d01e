-- ===== src/Client/Args.antt =====
-- src/bin/blitzclient.rs: `parse_args` and `main`. What the program writes to the standard error is left out,
-- but for the reason of an exit.
use blitz_broker.Common.{
  ℕ, Bool, true, false, ◌||◌, Option, none, some, List, [], ◌∷◌, ltb, if◌then◌else◌, nat_eq,
  list_beq, list_eq,
}
use blitz_broker.Outcome.{Outcome, ok, err, panic, out_of_fuel, ◌>>=◌, ◌>>◌, reject_if, ok_or}
use blitz_broker.Protocol.Packet.{Str}
use blitz_broker.Main.{parse_unsigned}
use blitz_broker.Client.Socket.{Socket, Session}
use blitz_broker.Client.Run
use blitz_broker.Env.{collect_args, OsString}

pub data Subcommand : Type 0 where
  pub_to : (topic message : Str) → ℕ → Subcommand
  sub_to : (filter : Str) → Subcommand

pub record Cli : Type 0 where
  pub host : Str
  pub port : ℕ
  pub subcommand : Subcommand

-- Why the program exits before it connects.
pub data UsageError : Type 0 where
  qos_out_of_range host_required port_required topic_required message_required : UsageError
  filter_required subcommand_required : UsageError

abbrev pub pub_word : Str
pub_word = b'p' ∷ b'u' ∷ b'b' ∷ []

abbrev pub sub_word : Str
sub_word = b's' ∷ b'u' ∷ b'b' ∷ []

abbrev pub host_option : Str
host_option = b'-' ∷ b'-' ∷ b'h' ∷ b'o' ∷ b's' ∷ b't' ∷ []

abbrev pub port_option : Str
port_option = b'-' ∷ b'-' ∷ b'p' ∷ b'o' ∷ b'r' ∷ b't' ∷ []

abbrev pub topic_option : Str
topic_option = b'-' ∷ b'-' ∷ b't' ∷ b'o' ∷ b'p' ∷ b'i' ∷ b'c' ∷ []

abbrev filter_option : Str
filter_option = b'-' ∷ b'-' ∷ b'f' ∷ b'i' ∷ b'l' ∷ b't' ∷ b'e' ∷ b'r' ∷ []

abbrev pub message_option : Str
message_option = b'-' ∷ b'-' ∷ b'm' ∷ b'e' ∷ b's' ∷ b's' ∷ b'a' ∷ b'g' ∷ b'e' ∷ []

abbrev msg_option : Str
msg_option = b'-' ∷ b'-' ∷ b'm' ∷ b's' ∷ b'g' ∷ []

abbrev pub qos_option : Str
qos_option = b'-' ∷ b'-' ∷ b'q' ∷ b'o' ∷ b's' ∷ []

-- What the loop over the arguments has found.
pub record Found : Type 0 where
  pub host : Option Str
  pub port : Option ℕ
  pub pub_topic : Option Str
  pub message : Option Str
  pub qos : ℕ
  pub sub_filter : Option Str
  pub subcmd : Option Str

abbrev pub nothing_found : Found
nothing_found = record {
  host = none;
  port = none;
  pub_topic = none;
  message = none;
  qos = 0;
  sub_filter = none;
  subcmd = none;
}

-- The arms of the `match` on an argument.
pub data Arm : Type 0 where
  pub_arm sub_arm host_arm port_arm topic_arm message_arm qos_arm other_arm : Arm

unfoldable pub arm_of : Str → Arm
arm_of arg =
    if list_beq arg pub_word
    then pub_arm
    else if list_beq arg sub_word
    then sub_arm
    else if list_beq arg host_option
    then host_arm
    else if list_beq arg port_option
    then port_arm
    else if list_beq arg topic_option || list_beq arg filter_option
    then topic_arm
    else if list_beq arg message_option || list_beq arg msg_option
    then message_arm
    else if list_beq arg qos_option
    then qos_arm
    else other_arm

abbrev pub takes_value : Arm → Bool
takes_value pub_arm = false
takes_value sub_arm = false
takes_value other_arm = false
takes_value arm = true

-- `args.get(i).and_then(|s| s.parse().ok())`
abbrev pub number_below : ℕ → Option Str → Option ℕ
number_below bound none = none
number_below bound (some s) = parse_unsigned bound s

abbrev pub or_zero : Option ℕ → ℕ
or_zero none = 0
or_zero (some n) = n

-- An arm, with the argument behind it, if there is one. An option that stands last unsets its value.
unfoldable pub take_arm : Arm → Option Str → Found → Outcome UsageError Found
take_arm pub_arm val f = ok (record f { subcmd = some pub_word })
take_arm sub_arm val f = ok (record f { subcmd = some sub_word })
take_arm host_arm val f = ok (record f { host = val })
take_arm port_arm val f = ok (record f { port = number_below 65536 val })
take_arm topic_arm val f = ok (record f { pub_topic = val; sub_filter = val })
take_arm message_arm val f = ok (record f { message = val })
take_arm qos_arm val f = do
  let qos = or_zero (number_below 256 val)
  reject_if (ltb 1 qos) qos_out_of_range
  ok (record f { qos = qos })
take_arm other_arm val f = ok f

-- The loop over the arguments behind the program's name.
unfoldable pub scan : List Str → Found → Outcome UsageError Found
scan [] f = ok f
scan (arg ∷ []) f = take_arm (arm_of arg) none f
scan (arg ∷ val ∷ args) f = take_arm (arm_of arg) (some val) f >>= λ f'.
    elim (takes_value (arm_of arg)) [ true ↦ scan args f' | false ↦ scan (val ∷ args) f' ]

unfoldable pub pub_command : Found → Outcome UsageError Subcommand
pub_command f = do
  topic ← ok_or f.pub_topic topic_required
  message ← ok_or f.message message_required
  ok (pub_to topic message f.qos)

unfoldable pub sub_command : Found → Outcome UsageError Subcommand
sub_command f = do filter ← ok_or f.sub_filter filter_required; ok (sub_to filter)

-- The `match` on the subcommand.
unfoldable pub command_of : Option Str → Found → Outcome UsageError Subcommand
command_of none f = err subcommand_required
command_of (some word) f =
    if list_beq word pub_word
    then pub_command f
    else if list_beq word sub_word
    then sub_command f
    else err subcommand_required

-- `parse_args` once the arguments are collected.
unfoldable pub read_args : List Str → Outcome UsageError Cli
read_args args = do
  f ← scan args nothing_found
  host ← ok_or f.host host_required
  port ← ok_or f.port port_required
  subcommand ← command_of f.subcmd f
  ok (record { host = host; port = port; subcommand = subcommand })

unfoldable pub parse_args : List OsString → Outcome UsageError Cli
parse_args args = collect_args args >>= read_args

unfoldable pub run : Str → Subcommand → Session (Unit {0})
run process_id (pub_to topic message qos) = Run.run_pub process_id topic message qos
run process_id (sub_to filter) = Run.run_sub process_id filter

-- How the process ends.
pub data Exit : Type 0 where
  exit_code : ℕ → Exit
  panicked never_ends : Exit

abbrev pub exit_of {ℓ κ} : {E : Type ℓ} {A : Type κ} → Outcome E A → Exit
exit_of (ok a) = exit_code 0
exit_of (err e) = exit_code 1
exit_of panic = panicked
exit_of out_of_fuel = never_ends

abbrev pub started : Str → Outcome UsageError Cli → Socket → Socket × Exit
started process_id (ok cli) s = let (t, r) = run process_id cli.subcommand s in (t, exit_of r)
started process_id r s = (s, exit_of r)

-- `main`, where the socket is the one of the host and the port.
unfoldable pub main : Str → List OsString → Socket → Socket × Exit
main process_id args s = started process_id (parse_args args) s
