-- ===== src/Startup.antt =====
-- server/src/main.cpp, `parseArgs`: the settings of the server from the command line. `stoi` of the
-- standard library is a parameter: the number that it reads, or none when it throws.
use sea_battle.Base.{
  ℕ, ◌%◌, ◌^◌, ◌≤◌, inl, inr, Bool, true, false, ◌||◌, List, [], ◌∷◌, String, ◌==◌, Option, none,
  some, if◌then◌else◌, arith, Bool-cases, ℤ, pos, pos_part, ltb_ℤ,
}

pub data LogLevel : Type 0 where
  info debug err : LogLevel

pub record ServerConfig : Type 0 where
  pub port : ℕ
  pub threads : ℕ
  pub log_level : LogLevel

-- DEFAULT_PORT and DEFAULT_THREAD_COUNT.
abbrev pub default_config : ServerConfig
default_config = record { port = 12345; threads = 4; log_level = LogLevel.info }

-- `parseArgs` returns true or false, or ends the process after the help was printed.
pub data Outcome : Type 0 where
  accepted : ServerConfig → Outcome
  refused : Outcome
  helped : Outcome

-- What one round of the loop does: the next argument, the one after it, or the end.
pub data Round : Type 0 where
  next : ServerConfig → Round
  skip : ServerConfig → Round
  stop : Outcome → Round

abbrev pub in_range : ℤ → ℤ → Bool
in_range high n = if ltb_ℤ n (pos 1) || ltb_ℤ high n then false else true

-- `static_cast<uint16_t>`.
abbrev pub set_port : ServerConfig → Option ℤ → Round
set_port config none = stop refused
set_port config (some n) =
    if in_range (pos 65535) n
    then skip (record config { port = pos_part n % 2 ^ 16 })
    else stop refused

-- `static_cast<size_t>`.
abbrev pub set_threads : ServerConfig → Option ℤ → Round
set_threads config none = stop refused
set_threads config (some n) =
    if in_range (pos 64) n
    then skip (record config { threads = pos_part n % 2 ^ 64 })
    else stop refused

abbrev pub follow : Round → (ServerConfig → Outcome) → (ServerConfig → Outcome) → Outcome
follow (next config) one two = one config
follow (skip config) one two = two config
follow (stop outcome) one two = outcome

module _ (stoi : String → Option ℤ) where
  -- `stoi(argv[++i])`, if there is a next argument.
  abbrev pub with_value : (ServerConfig → Option ℤ → Round) → ServerConfig → Option String → Round
  with_value set config none = stop refused
  with_value set config (some value) = set config (stoi value)

  unfoldable pub read_option : String → Option String → ServerConfig → Round
  read_option arg value config =
      if arg == "--port"
      then with_value set_port config value
      else if arg == "--threads"
      then with_value set_threads config value
      else if arg == "--debug"
      then next (record config { log_level = LogLevel.debug })
      else if arg == "--quiet"
      then next (record config { log_level = LogLevel.err })
      else if arg == "--help" || arg == "-h"
      then stop helped
      else stop refused

  -- The loop over `argv[1]`, `argv[2]` and so on.
  unfoldable pub parse_args : List String → ServerConfig → Outcome
  parse_args [] config = accepted config
  parse_args (arg ∷ []) config =
      follow (read_option arg none config) (λ config'. accepted config')
        (λ config'. accepted config')
  parse_args (arg ∷ value ∷ rest) config =
      follow (read_option arg (some value) config) (λ config'. parse_args (value ∷ rest) config')
        (λ config'. parse_args rest config')

-- The bounds of the settings.
abbrev pub InBounds : ServerConfig → Type 0
InBounds config =
    (1 ≤ config.port) × (config.port ≤ 65535) × (1 ≤ config.threads) × (config.threads ≤ 64)

abbrev RoundInBounds : Round → Type 0
RoundInBounds (next config) = InBounds config
RoundInBounds (skip config) = InBounds config
RoundInBounds (stop (accepted config)) = InBounds config
RoundInBounds (stop outcome) = Unit

abbrev pub OutcomeInBounds : Outcome → Type 0
OutcomeInBounds (accepted config) = InBounds config
OutcomeInBounds outcome = Unit

set_port-InBounds :
    (config : ServerConfig) (n : Option ℤ) → InBounds config → RoundInBounds (set_port config n)
set_port-InBounds config none b = tt
set_port-InBounds config (some n) b = elim (Bool-cases (in_range (pos 65535) n)) [
  | inr out ↦ rw out tt
  | inl within ↦ rw within (ground (arith, b))
]

set_threads-InBounds :
    (config : ServerConfig) (n : Option ℤ) → InBounds config → RoundInBounds (set_threads config n)
set_threads-InBounds config none b = tt
set_threads-InBounds config (some n) b = elim (Bool-cases (in_range (pos 64) n)) [
  | inr out ↦ rw out tt
  | inl within ↦ rw within (ground (arith, b))
]

follow-InBounds :
    (r : Round) (one two : ServerConfig → Outcome)
    → RoundInBounds r
    → ((config : ServerConfig) → InBounds config → OutcomeInBounds (one config))
    → ((config : ServerConfig) → InBounds config → OutcomeInBounds (two config))
    → OutcomeInBounds (follow r one two)
follow-InBounds (next config) one two b h k = h config b
follow-InBounds (skip config) one two b h k = k config b
follow-InBounds (stop (accepted config)) one two b h k = b
follow-InBounds (stop refused) one two b h k = tt
follow-InBounds (stop helped) one two b h k = tt

if-InBounds :
    (b : Bool) (r q : Round)
    → RoundInBounds r
    → RoundInBounds q
    → RoundInBounds (if b then r else q)
if-InBounds true r q h k = h
if-InBounds false r q h k = k

module _ (stoi : String → Option ℤ) where
  value-InBounds :
      (set : ServerConfig → Option ℤ → Round) (config : ServerConfig) (value : Option String)
      → ((n : Option ℤ) → RoundInBounds (set config n))
      → RoundInBounds (with_value stoi set config value)
  value-InBounds set config none h = tt
  value-InBounds set config (some value) h = h (stoi value)

  read_option-InBounds :
      (arg : String) (value : Option String) (config : ServerConfig)
      → InBounds config
      → RoundInBounds (read_option stoi arg value config)
  unfolding read_option
  read_option-InBounds arg value config b =
      if-InBounds (arg == "--port") _ _
        (value-InBounds set_port config value (λ n. set_port-InBounds config n b))
        (if-InBounds (arg == "--threads") _ _
          (value-InBounds set_threads config value (λ n. set_threads-InBounds config n b))
          (if-InBounds (arg == "--debug") _ _ b (
            if-InBounds (arg == "--quiet") _ _ b
              (if-InBounds (arg == "--help" || arg == "-h") _ _ tt tt))))

  -- Whatever the arguments are and whatever `stoi` reads in them, settings within the bounds stay so
  -- when the command line is accepted: a port from 1 to 65535 and 1 to 64 threads.
  pub parse_args-InBounds :
      (args : List String) (config : ServerConfig)
      → InBounds config
      → OutcomeInBounds (parse_args stoi args config)
  unfolding parse_args
  parse_args-InBounds [] config b = b
  parse_args-InBounds (arg ∷ []) config b =
      follow-InBounds (read_option stoi arg none config) _ _
        (read_option-InBounds arg none config b) (λ config' b'. b') (λ config' b'. b')
  parse_args-InBounds (arg ∷ value ∷ rest) config b =
      follow-InBounds (read_option stoi arg (some value) config) _ _
        (read_option-InBounds arg (some value) config b)
        (λ config' b'. parse_args-InBounds (value ∷ rest) config' b')
        (λ config' b'. parse_args-InBounds rest config' b')
