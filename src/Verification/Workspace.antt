-- ===== src/Verification/Workspace.antt =====
-- internal/verification/workspace.go: the comparison of a workspace with its baseline. Git, the walk
-- through the files, the digests and the patterns of `path.Match` are parameters.
pub mod Laws
use cyber_foreman.Prelude.{
  ℕ, String, str_eq, append, Bool, true, false, not, ◌&&◌, ◌||◌, List, [], ◌∷◌, ◌++◌, Option, none,
  some, any, keep, map, slice, len, starts_with, ◌-◌, if◌then◌else◌, ◌==◌, Map, lookup, ◌⊎◌, inl,
  inr,
}

pub record WorkspacePolicy : Type 0 where
  pub ignored_paths : List String
  pub sensitive_paths : List String
  pub max_files : ℕ
  pub max_file_size : ℕ
  pub max_total_size : ℕ
  pub require_changes : Bool

pub record FileState : Type 0 where
  pub mode : ℕ
  pub size : ℕ
  pub digest : String
  pub kind : String

-- `files` is `none` where Go's map is nil.
pub record WorkspaceBaseline : Type 0 where
  pub root : String
  pub head : String
  pub files : Option (Map FileState)
  pub diff_check_digest : String

pub record WorkspaceResult : Type 0 where
  pub passed : Bool
  pub security_violation : Bool
  pub head_changed : Bool
  pub diff_check_passed : Bool
  pub changed_files : List String
  pub violations : List String
  pub diff_output : String
  pub diff_truncated : Bool

-- `workspaceDiffState`.
pub record DiffState : Type 0 where
  pub digest : String
  pub output : String
  pub failed : Bool
  pub truncated : Bool

-- What `git` returns: the trimmed output, whether it was cut, and the error, which is a process's exit code
-- or another one.
pub data GitError : Type 0 where
  exited : ℕ → String → GitError
  broken : String → GitError

pub record GitAnswer : Type 0 where
  pub output : String
  pub truncated : Bool
  pub error : Option GitError

-- What a verification calls: `git` runs a command in a directory; `capture_files` walks through the tree;
-- `absolute`, `trim`, `hex_digest` (of SHA-256), `match_pattern` (of package path) and `sort` are Go's.
pub record Checkout (W : Type 0) : Type 0 where
  pub git : String → List String → W → GitAnswer × W
  pub absolute : String → String ⊎ String
  pub trim : String → String
  pub hex_digest : String → String
  pub capture_files : String → WorkspacePolicy → W → (String ⊎ Map FileState) × W
  pub match_pattern : String → String → Bool
  pub sort : List String → List String
  pub redact : String → String

abbrev pub default_ignored : List String
default_ignored =
    ".git" ∷ ".git/**" ∷ ".tools" ∷ ".tools/**" ∷ ".cache" ∷ ".cache/**" ∷ "bin" ∷ "bin/**" ∷ "data"
    ∷ "data/**" ∷ []

abbrev pub default_sensitive : List String
default_sensitive =
    ".api_key" ∷ ".env" ∷ ".env.*" ∷ "*.pem" ∷ "*.key" ∷ "id_rsa" ∷ "id_ed25519" ∷ "**/id_rsa"
    ∷ "**/id_ed25519" ∷ []

abbrev or_paths : List String → List String → List String
or_paths [] d = d
or_paths (x ∷ xs) d = x ∷ xs

abbrev or_limit : ℕ → ℕ → ℕ
or_limit n d = if n == 0 then d else n

-- `normalizeWorkspacePolicy`.
unfoldable pub normalize_workspace_policy : WorkspacePolicy → WorkspacePolicy
normalize_workspace_policy p = record {
  ignored_paths = or_paths p.ignored_paths default_ignored;
  sensitive_paths = or_paths p.sensitive_paths default_sensitive;
  max_files = or_limit p.max_files 20_000;
  max_file_size = or_limit p.max_file_size 67_108_864;
  max_total_size = or_limit p.max_total_size 536_870_912;
  require_changes = p.require_changes;
}

-- Go's `==` on file states.
unfoldable pub same_state : FileState → FileState → Bool
same_state a b =
    (a.mode == b.mode) && ((a.size == b.size) && (str_eq a.digest b.digest && str_eq a.kind b.kind))

-- The test of both loops of `compareFiles`: the name is missing, or the state is another.
unfoldable pub differs : Option FileState → FileState → Bool
unfolding same_state
differs none s = true
differs (some c) s = not (same_state c s)

-- The names of one map whose state is missing or another in the other map.
unfoldable pub changed_names : Map FileState → Map FileState → List String
unfolding differs
changed_names [] other = []
changed_names ((name, s) ∷ rest) other =
    let names = changed_names rest other in
    if differs (lookup name other) s then name ∷ names else names

-- A set of names: every name once.
unfoldable pub distinct : List String → List String
distinct [] = []
distinct (x ∷ xs) = let rest = distinct xs in if any (str_eq x) rest then rest else x ∷ rest

unfoldable pub all_changed : Map FileState → Map FileState → List String
unfolding changed_names
all_changed before after = distinct (changed_names before after ++ changed_names after before)

abbrev pub is_none_of : List String → Bool
is_none_of [] = true
is_none_of (x ∷ xs) = false

-- The end of a pattern that stands for everything below a directory.
abbrev is_below : String → Bool
is_below p = str_eq (slice p (len p - 3) (len p)) "/**"

abbrev below : String → String → Bool
below p name =
    let prefix = slice p 0 (len p - 3) in str_eq name prefix || starts_with name (append prefix "/")

abbrev as_map : Option (Map FileState) → Map FileState
as_map none = []
as_map (some m) = m

abbrev is_nil : Option (Map FileState) → Bool
is_nil none = true
is_nil (some m) = false

abbrev pub is_incomplete : WorkspaceBaseline → Bool
is_incomplete b =
    str_eq b.root "" || (str_eq b.head "" || (is_nil b.files || str_eq b.diff_check_digest ""))

abbrev pub violation_if : Bool → String → List String
violation_if b text = if b then text ∷ [] else []

abbrev sensitive_text : String → String
sensitive_text name = append "sensitive path changed: " name

-- The violations of `Verify`, before they are sorted.
unfoldable pub violations_of : Bool → List String → Bool → Bool → List String
violations_of head_changed sensitive worse missing =
    violation_if head_changed "git HEAD changed during task"
    ++ (map sensitive_text sensitive
        ++ (violation_if worse "git diff --check failed"
            ++ violation_if missing "task produced no workspace changes"))

-- `isDiffCheckResult`: no error, or the exit code of a check that found something.
unfoldable pub is_diff_check_result : Option GitError → Bool
is_diff_check_result none = true
is_diff_check_result (some (exited n text)) = n == 2
is_diff_check_result (some (broken text)) = false

abbrev has_error : Option GitError → Bool
has_error none = false
has_error (some e) = true

abbrev git_output : Option GitError → String → String ⊎ String
git_output none out = inr out
git_output (some (exited n text)) out = inl text
git_output (some (broken text)) out = inl text

abbrev bind : {A B W : Type 0} → (String ⊎ A) × W → (A → W → (String ⊎ B) × W) → (String ⊎ B) × W
bind (inl e, w) f = (inl e, w)
bind (inr a, w) f = f a w

module _ {W : Type 0} (ck : Checkout W) where
  -- `matchesAny`, on a system whose separator is the slash.
  unfoldable pub matches_any : String → List String → Bool
  matches_any name patterns =
      any (λ p. ck.match_pattern p name || (is_below p && below p name)) patterns

  abbrev git_text : GitAnswer × W → (String ⊎ String) × W
  git_text (a, w) = (git_output a.error a.output, w)

  unfoldable pub diff_state : GitAnswer → GitAnswer → String ⊎ DiffState
  diff_state a b =
      let output = ck.trim (append a.output (append "\n" b.output)) in
      if not (is_diff_check_result a.error)
      then inl "worktree diff check"
      else if not (is_diff_check_result b.error)
      then inl "staged diff check"
      else if a.truncated || b.truncated
      then inl "git diff check output exceeded limit"
      else inr (record {
        digest = ck.hex_digest output;
        output = output;
        failed = has_error a.error || has_error b.error;
        truncated = false;
      })

  -- `WorkspaceVerifier.diffCheck`.
  unfoldable pub diff_check : String → W → (String ⊎ DiffState) × W
  unfolding diff_state
  diff_check root w0 =
      let (a, w1) = ck.git root ("diff" ∷ "--check" ∷ "--no-ext-diff" ∷ []) w0 in
      let (b, w2) = ck.git root ("diff" ∷ "--cached" ∷ "--check" ∷ "--no-ext-diff" ∷ []) w1 in
      (diff_state a b, w2)

  -- `WorkspaceVerifier.Capture`.
  unfoldable pub capture : String → WorkspacePolicy → W → (String ⊎ WorkspaceBaseline) × W
  unfolding normalize_workspace_policy diff_check
  capture cwd policy w0 =
      bind
        (bind (git_text (ck.git cwd ("rev-parse" ∷ "--show-toplevel" ∷ []) w0))
          (λ out w. (ck.absolute (ck.trim out), w)))
        (λ root w1. bind (git_text (ck.git root ("rev-parse" ∷ "HEAD" ∷ []) w1)) (λ head w2.
          bind (ck.capture_files root (normalize_workspace_policy policy) w2) (λ files w3.
            bind (diff_check root w3) (λ diff w4. (
              inr (record {
                root = root;
                head = ck.trim head;
                files = some files;
                diff_check_digest = diff.digest;
              }),
              w4,
            )))))

  -- The result of `Verify`, from the baseline, what was captured now and the state of the diff.
  unfoldable pub judge :
      WorkspaceBaseline → WorkspacePolicy → WorkspaceBaseline → DiffState → WorkspaceResult
  unfolding normalize_workspace_policy all_changed matches_any violations_of
  judge baseline given current diff =
      let policy = normalize_workspace_policy given in
      let changed = ck.sort (all_changed (as_map baseline.files) (as_map current.files)) in
      let head_changed = not (str_eq current.head baseline.head) in
      let sensitive = keep (λ name. matches_any name policy.sensitive_paths) changed in
      let worse = diff.failed && not (str_eq diff.digest baseline.diff_check_digest) in
      let violation = head_changed || not (is_none_of sensitive) in
      let missing = policy.require_changes && is_none_of changed in
      record {
        passed = not violation && (not worse && not missing);
        security_violation = violation;
        head_changed = head_changed;
        diff_check_passed = not worse;
        changed_files = changed;
        violations = ck.sort (violations_of head_changed sensitive worse missing);
        diff_output = if worse then ck.redact diff.output else "";
        diff_truncated = worse && diff.truncated;
      }

  -- `WorkspaceVerifier.Verify`.
  unfoldable pub verify : WorkspaceBaseline → WorkspacePolicy → W → (String ⊎ WorkspaceResult) × W
  unfolding judge capture diff_check
  verify baseline policy w0 =
      if is_incomplete baseline
      then (inl "workspace baseline is incomplete", w0)
      else bind (capture baseline.root policy w0) (λ current w1.
        bind (diff_check baseline.root w1)
          (λ diff w2. (inr (judge baseline policy current diff), w2)))
