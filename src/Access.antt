-- ===== src/Access.antt =====
-- internal/access/policy.go: which workspaces and commands a deployment allows. What package filepath and the
-- file system answer is a parameter.
pub mod Laws
use cyber_foreman.Prelude.{
  String, str_eq, starts_with, Bool, true, false, not, ◌&&◌, ◌||◌, List, [], ◌∷◌, ◌++◌, Option,
  none, some, any, if◌then◌else◌, ◌⊎◌, inl, inr,
}
use cyber_foreman.App.Queue.{TaskAuthorization, is_empty}

pub record Config : Type 0 where
  pub workspace_roots : List String
  pub restrict_workspace : Bool
  pub command_allowlist : List (List String)
  pub restrict_commands : Bool

pub record AccessPolicy : Type 0 where
  pub workspace_roots : List String
  pub restrict_workspace : Bool
  pub command_allowlist : List (List String)
  pub restrict_commands : Bool

-- `filepath.Abs`, `filepath.EvalSymlinks`, `os.Stat` with `IsDir`, `filepath.Clean` and `filepath.Rel`, at the
-- time of a call; an error is its text.
pub record Files : Type 0 where
  pub absolute : String → String ⊎ String
  pub resolve : String → String ⊎ String
  pub is_directory : String → String ⊎ Bool
  pub clean : String → String
  pub relative : String → String → Option String

-- The refusals of `AuthorizeTask`.
pub data Refusal : Type 0 where
  unresolved_workspace : String → Refusal
  outside_roots : String → Refusal
  command_not_allowed : List String → Refusal
  verification_not_allowed : List String → Refusal

-- Whether the first list begins the second: the loop over a prefix in `commandAllowed`.
unfoldable pub begins : List String → List String → Bool
begins [] command = true
begins (p ∷ prefix) [] = false
begins (p ∷ prefix) (c ∷ command) = let rest = begins prefix command in str_eq c p && rest

-- `Policy.commandAllowed`.
unfoldable pub command_allowed : AccessPolicy → List String → Bool
unfolding begins
command_allowed p command = any (λ prefix. begins prefix command) p.command_allowlist

abbrev pub clean_directory : Files → String → String ⊎ Bool → String ⊎ String
clean_directory fs path (inl e) = inl e
clean_directory fs path (inr true) = inr (fs.clean path)
clean_directory fs path (inr false) = inl "not a directory"

abbrev pub resolved_directory : Files → String ⊎ String → String ⊎ String
resolved_directory fs (inl e) = inl e
resolved_directory fs (inr path) = clean_directory fs path (fs.is_directory path)

abbrev pub absolute_directory : Files → String ⊎ String → String ⊎ String
absolute_directory fs (inl e) = inl e
absolute_directory fs (inr path) = resolved_directory fs (fs.resolve path)

-- `canonicalDirectory`.
unfoldable pub canonical_directory : Files → String → String ⊎ String
canonical_directory fs path = absolute_directory fs (fs.absolute path)

abbrev pub stays_below : Option String → Bool
stays_below none = false
stays_below (some relative) =
    str_eq relative "." || (not (str_eq relative "..") && not (starts_with relative "../"))

-- `withinAnyRoot`, on a system whose separator is the slash.
unfoldable pub within_any_root : Files → String → List String → Bool
within_any_root fs path roots = any (λ root. stays_below (fs.relative root path)) roots

abbrev add_root : String ⊎ String → String ⊎ List String → String ⊎ List String
add_root (inl e) rest = inl e
add_root (inr r) (inl e) = inl e
add_root (inr r) (inr rs) = inr (r ∷ rs)

-- The loop of `NewPolicy` over the roots.
unfoldable pub canonical_roots : Files → List String → String ⊎ List String
canonical_roots fs [] = inr []
canonical_roots fs (r ∷ rs) = add_root (canonical_directory fs r) (canonical_roots fs rs)

abbrev with_roots : Config → String ⊎ List String → String ⊎ AccessPolicy
with_roots c (inl e) = inl e
with_roots c (inr roots) = inr (record {
  workspace_roots = roots;
  restrict_workspace = c.restrict_workspace;
  command_allowlist = c.command_allowlist;
  restrict_commands = c.restrict_commands;
})

-- `NewPolicy`.
unfoldable pub new_policy : Files → Config → String ⊎ AccessPolicy
unfolding canonical_roots
new_policy fs c = with_roots c (canonical_roots fs c.workspace_roots)

-- The loop of `AuthorizeTask` over the verification commands.
unfoldable pub check_verification : AccessPolicy → List (List String) → Option Refusal
check_verification p [] = none
check_verification p (c ∷ cs) =
    let rest = check_verification p cs in
    if p.restrict_commands && not (command_allowed p c)
    then some (verification_not_allowed c)
    else rest

abbrev pub located : Files → AccessPolicy → String → String ⊎ String → Option Refusal
located fs p named (inl e) = some (unresolved_workspace e)
located fs p named (inr path) =
    if not (within_any_root fs path p.workspace_roots) then some (outside_roots named) else none

unfoldable pub check_workspace : Files → AccessPolicy → String → Option Refusal
check_workspace fs p named =
    if p.restrict_workspace then located fs p named (canonical_directory fs named) else none

unfoldable pub check_command : AccessPolicy → List String → Option Refusal
check_command p command =
    if not (is_empty command) && (p.restrict_commands && not (command_allowed p command))
    then some (command_not_allowed command)
    else none

abbrev pub first_refusal : Option Refusal → Option Refusal → Option Refusal
first_refusal (some r) rest = some r
first_refusal none rest = rest

-- `Policy.AuthorizeTask` of a policy that is not nil.
unfoldable pub authorize_task : Files → AccessPolicy → TaskAuthorization → Option Refusal
unfolding check_workspace check_command check_verification
authorize_task fs p q =
    first_refusal (check_workspace fs p q.workspace)
      (first_refusal (check_command p q.command) (check_verification p q.verification_commands))
