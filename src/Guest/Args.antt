-- ===== src/Guest/Args.antt =====
-- The command line of the agent: `parse_args` of guest-agent/src/main.rs. A word is its code points.
use keycard.Prelude.{
  ℕ, ◌≤◌, ◌%◌, Bool, true, false, ◌||◌, ◌≡◌, refl, Option, none, some, List, [], ◌∷◌, arith, Text,
  codes, same_text, if◌then◌else◌,
}
use keycard.Prelude.Decimals.{decimal}
use keycard.Guest.{parse_u32, max_u32}
use keycard.Guest.Wire.{parse_unsigned-decimal}

pub data Transport : Type 0 where
  vsock tcp : Transport

pub record Args : Type 0 where
  pub transport : Transport
  pub data_port : ℕ
  pub ctrl_port : ℕ
  pub shell : Text
  pub tcp_bind : Text

abbrev pub default_args : Args
default_args = record {
  transport = vsock;
  data_port = 10000;
  ctrl_port = 10001;
  shell = codes "/bin/sh";
  tcp_bind = codes "127.0.0.1";
}

-- The command line is good, asks for the usage, or is refused.
pub data Parsed : Type 0 where
  runs : Args → Parsed
  helps fails : Parsed

unfoldable pub transport_of : Text → Option Transport
transport_of value =
    if same_text value (codes "vsock")
    then some vsock
    else if same_text value (codes "tcp")
    then some tcp
    else none

-- A flag with its value.
unfoldable pub set_flag : Text → Text → Args → Option Args
unfolding transport_of parse_u32
set_flag flag value args =
    if same_text flag (codes "--transport")
    then (elim (transport_of value) [ none ↦ none | some t ↦ some (record args { transport = t }) ])
    else if same_text flag (codes "--data-port")
    then (elim (parse_u32 value) [ none ↦ none | some n ↦ some (record args { data_port = n }) ])
    else if same_text flag (codes "--ctrl-port")
    then (elim (parse_u32 value) [ none ↦ none | some n ↦ some (record args { ctrl_port = n }) ])
    else if same_text flag (codes "--shell")
    then some (record args { shell = value })
    else if same_text flag (codes "--bind")
    then some (record args { tcp_bind = value })
    else none

abbrev pub is_help : Text → Bool
is_help flag = same_text flag (codes "-h") || same_text flag (codes "--help")

-- The loop of `parse_args`; a flag without its value is refused, and so is one that is not known.
unfoldable pub parse_from : List Text → Args → Parsed
unfolding set_flag
parse_from [] args = runs args
parse_from (flag ∷ []) args = if is_help flag then helps else fails
parse_from (flag ∷ value ∷ more) args =
    if is_help flag
    then helps
    else (elim (set_flag flag value args) [ none ↦ fails | some args' ↦ parse_from more args' ])

unfoldable pub parse_args : List Text → Parsed
unfolding parse_from
parse_args words = parse_from words default_args

-- `main`: whether it exits with success; `ends` tells whether the transport's loop returns no error.
unfoldable pub main : List Text → (Args → Bool) → Bool
main words ends = elim (parse_args words) [ runs args ↦ ends args | helps ↦ true | fails ↦ false ]

-- The port that `run_tcp` binds: `as u16` keeps the low bits.
abbrev pub tcp_port : ℕ → ℕ
tcp_port n = n % 65536

abbrev name_of : Transport → Text
name_of vsock = codes "vsock"
name_of tcp = codes "tcp"

-- The words of a command line that asks for given arguments.
abbrev pub words_of : Args → List Text
words_of args =
    codes "--transport"
    ∷ name_of args.transport
    ∷ codes "--data-port"
    ∷ decimal args.data_port
    ∷ codes "--ctrl-port"
    ∷ decimal args.ctrl_port
    ∷ codes "--shell"
    ∷ args.shell
    ∷ codes "--bind"
    ∷ args.tcp_bind
    ∷ []

parse_u32-decimal : (n : ℕ) → n ≤ max_u32 → parse_u32 (decimal n) ≡ some n
unfolding parse_u32
parse_u32-decimal n h = ground (arith, parse_unsigned-decimal max_u32 n)

transport_of-name_of : (t : Transport) → transport_of (name_of t) ≡ some t
unfolding transport_of same_text
transport_of-name_of vsock = refl
transport_of-name_of tcp = refl

-- Whatever arguments can be asked for on a command line are those that the agent gets, if both ports
-- fit 32 bits.
pub parse_args-words_of :
    (args : Args)
    → args.data_port ≤ max_u32
    → args.ctrl_port ≤ max_u32
    → parse_args (words_of args) ≡ runs args
unfolding parse_args parse_from set_flag same_text
parse_args-words_of args h k =
    rw
      (
        transport_of-name_of args.transport,
        parse_u32-decimal args.data_port h,
        parse_u32-decimal args.ctrl_port k,
      )
      refl

-- Over TCP a port beyond 16 bits is not refused: another port is bound in its place.
pub wide_port_wraps : (n : ℕ) → 65536 ≤ n → (tcp_port n ≡ n → ⊥) × (tcp_port n ≤ 65535)
wide_port_wraps n h = (λ e. omega arith, omega arith)
