-- ===== src/Tests/Verification.antt =====
-- internal/verification and internal/access at concrete inputs.
use cyber_foreman.Prelude.{
  ℕ, String, str_eq, ◌≡◌, ◌≢◌, ◌↔◌, refl, true, false, List, [], ◌∷◌, none, some, any, All, Map,
  lookup, ◌⊎◌, inr, len, ◌+◌,
}
use cyber_foreman.Domain.{pos}
use cyber_foreman.App.Types.{Command}
use cyber_foreman.App.Queue.{TaskAuthorization, is_empty}
use cyber_foreman.Verification.Tail.{new_tail_buffer, write, write_all}
use cyber_foreman.Verification.Tail.Laws.{last_of, concat, write_all-last}
use cyber_foreman.Verification.Command.{System, CommandVerifier, run}
use cyber_foreman.Verification.Command.Laws.{Verdict, run-Verdict}
use cyber_foreman.Verification.Workspace.{
  FileState, WorkspacePolicy, WorkspaceBaseline, DiffState, Checkout, all_changed, judge,
  matches_any, normalize_workspace_policy, changed_names, distinct, same_state, differs,
}
use cyber_foreman.Verification.Workspace.Laws.{IsMap, all_changed_iff}
use cyber_foreman.Access.{
  check_workspace, check_command, check_verification, begins, AccessPolicy, Files, command_allowed,
  authorize_task, canonical_directory, within_any_root,
}
use cyber_foreman.Access.Laws.{IsAllowed, IsWithinRoots, authorize_task-IsAllowed}

-- A payload of exactly the limit fills the empty buffer and loses nothing, and yet the buffer says that it is
-- truncated.
exact_write :
    ((write (1 ∷ 2 ∷ []) (new_tail_buffer 2)).kept ≡ 1 ∷ 2 ∷ [])
    × ((write (1 ∷ 2 ∷ []) (new_tail_buffer 2)).truncated ≡ true)
unfolding write new_tail_buffer
exact_write = (refl, refl)

abbrev chunks : List (List ℕ)
chunks = (1 ∷ 2 ∷ []) ∷ (3 ∷ []) ∷ (4 ∷ 5 ∷ []) ∷ []

tail_kept : (write_all chunks (new_tail_buffer 3)).kept ≡ 3 ∷ 4 ∷ 5 ∷ []
unfolding write_all write new_tail_buffer
tail_kept = refl

write_all-last_example : (write_all chunks (new_tail_buffer 3)).kept ≡ last_of 3 (concat chunks)
write_all-last_example = write_all-last 3 chunks

all_fits : (write_all chunks (new_tail_buffer 9)).truncated ≡ false
unfolding write_all write new_tail_buffer
all_fits = refl

-- A world that counts its processes, of which the second fails.
abbrev pub machine : System ℕ
machine = record {
  run = λ i n. (
    record {
      writes = chunks;
      exit_code = some (pos n);
      duration = 1;
      deadline_exceeded = false;
      error = none;
    },
    n + 1,
  );
  lookup_env = λ k n. none;
  text = λ bytes. "out";
  cut = λ s. none;
  byte_length = len;
  to_upper = λ s. s;
  contains = λ s t. false;
  replace_all = λ s v r. s;
  mask = λ s. s;
}

abbrev verifier : CommandVerifier
verifier = record { output_limit = 0; env = []; env_keys = []; sensitive_values = [] }

abbrev pub three_commands : List Command
three_commands =
    record { argv = "go" ∷ "vet" ∷ []; timeout = 0 }
    ∷ record { argv = "go" ∷ "test" ∷ []; timeout = 5 }
    ∷ record { argv = "true" ∷ []; timeout = 0 }
    ∷ []

run-Verdict_example : Verdict three_commands (run machine verifier "/w" three_commands 0).0
run-Verdict_example = run-Verdict machine verifier "/w" three_commands 0

abbrev state : String → FileState
state digest = record { mode = 420; size = 3; digest = digest; kind = "file" }

abbrev pub files_before : Map FileState
files_before = ("a.go", state "1") ∷ ("b.go", state "2") ∷ []

abbrev files_after : Map FileState
files_after = ("b.go", state "3") ∷ ("c.go", state "4") ∷ ("a.go", state "1") ∷ []

files_changed : all_changed files_before files_after ≡ "b.go" ∷ "c.go" ∷ []
unfolding all_changed changed_names distinct lookup same_state differs
files_changed = refl

before_IsMap : IsMap files_before
unfolding lookup
before_IsMap = (refl, (refl, tt))

after_IsMap : IsMap files_after
unfolding lookup
after_IsMap = (refl, (refl, (refl, tt)))

all_changed_iff_example :
    (any (str_eq "b.go") (all_changed files_before files_after) ≡ true)
    ↔ (lookup "b.go" files_before ≢ lookup "b.go" files_after)
all_changed_iff_example = all_changed_iff files_before files_after "b.go" before_IsMap after_IsMap

abbrev pub checkout : Checkout Unit
checkout = record {
  git = λ dir args w. (record { output = ""; truncated = false; error = none }, w);
  absolute = λ p. inr p;
  trim = λ s. s;
  hex_digest = λ s. s;
  capture_files = λ root p w. (inr files_after, w);
  match_pattern = str_eq;
  sort = λ names. names;
  redact = λ s. s;
}

abbrev pub baseline_of : Map FileState → WorkspaceBaseline
baseline_of files = record {
  root = "/w";
  head = "abc";
  files = some files;
  diff_check_digest = "d";
}

abbrev strict : WorkspacePolicy
strict = record {
  ignored_paths = [];
  sensitive_paths = [];
  max_files = 0;
  max_file_size = 0;
  max_total_size = 0;
  require_changes = true;
}

abbrev clean_diff : DiffState
clean_diff = record { digest = "d"; output = ""; failed = false; truncated = false }

clean_passes :
    (judge checkout (baseline_of files_before) strict (baseline_of files_after) clean_diff).passed
    ≡ true
unfolding judge normalize_workspace_policy all_changed changed_names distinct lookup same_state
    differs matches_any
clean_passes = refl

abbrev disk : Files
disk = record {
  absolute = λ p. inr p;
  resolve = λ p. inr p;
  is_directory = λ p. inr true;
  clean = λ p. p;
  relative = λ root p. some "project";
}

abbrev guarded : AccessPolicy
guarded = record {
  workspace_roots = "/srv" ∷ [];
  restrict_workspace = true;
  command_allowlist = ("go" ∷ "test" ∷ []) ∷ ("make" ∷ []) ∷ [];
  restrict_commands = true;
}

abbrev asked : TaskAuthorization
asked = record {
  adapter = "process";
  workspace = "/srv/project";
  command = "make" ∷ "all" ∷ [];
  verification_commands = ("go" ∷ "test" ∷ []) ∷ [];
}

granted : authorize_task disk guarded asked ≡ none
unfolding authorize_task check_workspace check_command check_verification canonical_directory
    within_any_root command_allowed begins
granted = refl

authorize_task-IsAllowed_example :
    ((true ≡ false) ⊎ IsWithinRoots disk guarded "/srv/project")
    × ((true ≡ false)
        ⊎ (((is_empty asked.command ≡ true) ⊎ IsAllowed asked.command guarded.command_allowlist)
            × All (λ c. IsAllowed c guarded.command_allowlist) asked.verification_commands))
authorize_task-IsAllowed_example = authorize_task-IsAllowed disk guarded asked granted
