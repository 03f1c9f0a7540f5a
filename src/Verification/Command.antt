-- ===== src/Verification/Command.antt =====
-- internal/verification/command.go and redact.go: the verifier that runs commands. What the operating system
-- and Go's text functions answer is a parameter.
pub mod Laws
use cyber_foreman.Prelude.{
  ℕ, String, str_eq, append, Bool, true, false, not, ◌&&◌, ◌||◌, List, [], ◌∷◌, ◌++◌, Option, none,
  some, any, if◌then◌else◌, ltb, ◌==◌,
}
use cyber_foreman.Domain.{ℤ, pos, negsuc, is_zero_ℤ}
use cyber_foreman.App.Types.{Command}
use cyber_foreman.Verification.Tail.{TailBuffer, new_tail_buffer, write_all}

abbrev pub default_command_timeout : ℕ
default_command_timeout = 600_000_000_000

abbrev pub default_output_limit : ℕ
default_output_limit = 65_536

pub record CommandResult : Type 0 where
  pub argv : List String
  pub exit_code : ℤ
  pub duration : ℕ
  pub timed_out : Bool
  pub output : String
  pub truncated : Bool
  pub error : String

pub record TestResult : Type 0 where
  pub passed : Bool
  pub commands : List CommandResult

-- A limit of 0 stands for every limit that is not positive.
pub record CommandVerifier : Type 0 where
  pub output_limit : ℕ
  pub env : List String
  pub env_keys : List String
  pub sensitive_values : List String

-- A finished process: what it wrote, its exit code if it ran at all, the time that it took, whether the
-- deadline ended it, and the error of `cmd.Run`.
pub record Outcome : Type 0 where
  pub writes : List (List ℕ)
  pub exit_code : Option ℤ
  pub duration : ℕ
  pub deadline_exceeded : Bool
  pub error : Option String

-- A process as it is started.
pub record Invocation : Type 0 where
  pub argv : List String
  pub cwd : String
  pub environment : List String
  pub timeout : ℕ

-- Go's packages os, os/exec, strings and regexp, over the state `W` of the world: `run` is `cmd.Run`, `text`
-- makes trimmed text of bytes, `cut` is `strings.Cut` at "=", `mask` replaces what the regular expression
-- of redact.go finds, and the others have the names of the functions.
pub record System (W : Type 0) : Type 0 where
  pub run : Invocation → W → Outcome × W
  pub lookup_env : String → W → Option String
  pub text : List ℕ → String
  pub cut : String → Option (String × String)
  pub byte_length : String → ℕ
  pub to_upper : String → String
  pub contains : String → String → Bool
  pub replace_all : String → String → String → String
  pub mask : String → String

abbrev pub error_text : Option String → String
error_text none = ""
error_text (some e) = e

-- What the loop of `Run` looks at.
unfoldable pub succeeded : CommandResult → Bool
succeeded r = is_zero_ℤ r.exit_code && (not r.timed_out && str_eq r.error "")

abbrev pub empty_command : List String → CommandResult
empty_command argv = record {
  argv = argv;
  exit_code = negsuc 0;
  duration = 0;
  timed_out = false;
  output = "";
  truncated = false;
  error = "verification command is empty";
}

abbrev exit_or_minus_one : Option ℤ → ℤ
exit_or_minus_one none = negsuc 0
exit_or_minus_one (some n) = n

abbrev or_default : ℕ → ℕ → ℕ
or_default n m = if n == 0 then m else n

abbrev pub keys_or_default : List String → List String
keys_or_default [] = "PATH" ∷ "TMPDIR" ∷ "TMP" ∷ "TEMP" ∷ "LANG" ∷ "LC_ALL" ∷ "SYSTEMROOT" ∷ []
keys_or_default (k ∷ ks) = k ∷ ks

module _ {W : Type 0} (sys : System W) where
  unfoldable pub looks_sensitive_key : String → Bool
  looks_sensitive_key key =
      any (sys.contains (sys.to_upper key)) ("KEY" ∷ "TOKEN" ∷ "SECRET" ∷ "PASSWORD" ∷ "AUTH" ∷ [])

  abbrev sensitive_value : Option (String × String) → List String
  sensitive_value none = []
  sensitive_value (some (key, value)) =
      if ltb (sys.byte_length value) 4 || not (looks_sensitive_key key) then [] else value ∷ []

  -- The loop of `redact` over the environment.
  unfoldable pub sensitive_values_of : List String → List String
  sensitive_values_of [] = []
  sensitive_values_of (item ∷ items) = sensitive_value (sys.cut item) ++ sensitive_values_of items

  unfoldable pub replace_values : List String → String → String
  replace_values [] text = text
  replace_values (v ∷ vs) text =
      replace_values vs
        (if ltb (sys.byte_length v) 4 then text else sys.replace_all text v "[REDACTED]")

  unfoldable pub redact : String → List String → List String → String
  unfolding sensitive_values_of replace_values
  redact text environment extra =
      sys.mask (replace_values (extra ++ sensitive_values_of environment) text)

  abbrev environment_entry : String → Option String → List String
  environment_entry key none = []
  environment_entry key (some value) = append key (append "=" value) ∷ []

  unfoldable pub allowed_environment : List String → W → List String
  allowed_environment [] w = []
  allowed_environment (k ∷ ks) w =
      environment_entry k (sys.lookup_env k w) ++ allowed_environment ks w

  abbrev result_error : Bool → Option String → String
  result_error true e = "verification command timed out"
  result_error false e = error_text e

  abbrev result_of : CommandVerifier → List String → Outcome → CommandResult
  result_of v argv o =
      let buffer =
        write_all o.writes (new_tail_buffer (or_default v.output_limit default_output_limit)) in
      record {
        argv = argv;
        exit_code = exit_or_minus_one o.exit_code;
        duration = o.duration;
        timed_out = o.deadline_exceeded;
        output = redact (sys.text buffer.kept) v.env v.sensitive_values;
        truncated = buffer.truncated;
        error = result_error o.deadline_exceeded o.error;
      }

  run_argv : CommandVerifier → String → List String → ℕ → W → CommandResult × W
  unfolding allowed_environment
  run_argv v cwd [] timeout w = (empty_command [], w)
  run_argv v cwd (name ∷ args) timeout w =
      let (o, w') =
        sys.run
          (record {
            argv = name ∷ args;
            cwd = cwd;
            environment = allowed_environment (keys_or_default v.env_keys) w ++ v.env;
            timeout = or_default timeout default_command_timeout;
          })
          w in
      (result_of v (name ∷ args) o, w')

  -- `CommandVerifier.runOne`.
  unfoldable pub run_one : CommandVerifier → String → Command → W → CommandResult × W
  unfolding run_argv
  run_one v cwd c w = run_argv v cwd c.argv c.timeout w

  abbrev pub add_result : CommandResult → TestResult × W → TestResult × W
  add_result r (t, w) = (record t { commands = r ∷ t.commands }, w)

  -- `CommandVerifier.Run`: the loop ends at the first command that does not succeed.
  unfoldable pub run : CommandVerifier → String → List Command → W → TestResult × W
  run v cwd [] w = (record { passed = true; commands = [] }, w)
  run v cwd (c ∷ cs) w =
      let (r, w1) = run_one v cwd c w in
      let rest = run v cwd cs w1 in
      if succeeded r then add_result r rest else (record { passed = false; commands = r ∷ [] }, w1)
