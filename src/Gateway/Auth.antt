-- ===== src/Gateway/Auth.antt =====
-- gateway/auth.py: the token files, and the check that only their owner can reach them.
pub mod Entries
pub mod Owner
pub mod Writing
use hermes_auto.Dict.{elem}
use hermes_auto.Gateway.Auth.Entries.{aces_of, has_inherited, remove_first}
use hermes_auto.Prelude.Result.{Result, ok, raise}
use hermes_auto.Prelude.{
  ℕ, String, Bool, true, false, not, ◌&&◌, ◌||◌, Option, none, some, List, [], ◌∷◌, ◌++◌, map, keep,
  is_empty, first, ◌==◌, ◌=ℕ◌, ltb, if◌then◌else◌, length, ◌/◌, ◌%◌,
}
use hermes_auto.Runtime.{Contents, absent, unreadable, bytes}
use hermes_auto.Text.{ascii, concat, join, show, strip}
use Prim.Native.String

-- `raw.decode("ascii")`; `none` is the `UnicodeDecodeError`
unfoldable pub decode_ascii : List ℕ → Option String
unfolding ascii
decode_ascii [] = some ""
decode_ascii (n ∷ raw) =
    let rest = decode_ascii raw in
    if ltb n 128 then elim rest [ none ↦ none | some s ↦ some (String.◌∷◌ (ascii n) s) ] else none

abbrev auth_error : String → String → String
auth_error path detail = concat (path ∷ ": " ∷ detail ∷ [])

-- `read_token`, of the decoded bytes; the error is the text of the `AuthError`
unfoldable pub token_of : String → Option String → Result String (Option String)
unfolding strip concat
token_of path none = raise (auth_error path "does not contain an ASCII token; re-mint it")
token_of path (some s) =
    if strip s == "" then raise (auth_error path "is empty; re-mint it") else ok (some (strip s))

-- `read_token`, and `read_admin_token` of gateway/admin.py: they differ in the path
unfoldable pub read_token : String → Contents → Result String (Option String)
unfolding decode_ascii token_of concat
read_token path absent = ok none
read_token path (unreadable e) =
    raise (auth_error path (concat ("exists but cannot be read: " ∷ e ∷ [])))
read_token path (bytes raw) = token_of path (decode_ascii raw)

-- How a run of `icacls` ended: not on the path, out of time, an `OSError`, or with a return code and
-- its two outputs.
pub data Icacls : Type 0 where
  missing : Icacls
  timed_out : Icacls
  os_error : String → Icacls
  completed : ℕ → String → String → Icacls

-- The account, the environment, and the functions of Python on texts.
pub record Account : Type 0 where
  -- `_current_user`
  pub user : String
  pub user_domain : Option String
  pub computer_name : Option String
  pub casefold : String → String
  pub splitlines : String → List String
  pub sorted : List String → List String
  -- `sorted(set(names))`
  pub sorted_set : List String → List String

-- `f"{qualifier}\\{user}"`, where the qualifier is there
abbrev pub qualified : String → Option String → List String
qualified user none = []
qualified user (some qualifier) =
    if qualifier == "" then [] else concat (qualifier ∷ "\\" ∷ user ∷ []) ∷ []

abbrev pub benign_directory_principals : List String
benign_directory_principals =
    "nt authority\\system" ∷ "builtin\\administrators" ∷ "owner rights" ∷ "creator owner" ∷ []

-- `(completed.stderr or completed.stdout).strip().splitlines()`, in the report of a failure
abbrev first_line : List String → String
first_line [] = "unknown error"
first_line (line ∷ lines) = line

-- `f"{mode:04o}"`, of a mode below 512
unfoldable pub octal : ℕ → String
unfolding concat show
octal mode = concat ("0" ∷ show (mode / 64) ∷ show (mode / 8 % 8) ∷ show (mode % 8) ∷ [])

-- `_posix_permissions_ok`, of the permission bits
unfoldable pub posix_permissions_ok : ℕ → Bool × String
unfolding octal concat
posix_permissions_ok mode =
    if mode =ℕ 384
    then (true, concat ("mode " ∷ octal mode ∷ " (owner read/write only)" ∷ []))
    else (
      false,
      concat ("mode " ∷ octal mode ∷ " grants access beyond the owner; expected 0600" ∷ []),
    )

-- `directory_permissions_ok` on POSIX, of the permission bits: `mode & 0o022`
unfoldable pub posix_directory_ok : ℕ → Bool × String
unfolding octal concat
posix_directory_ok mode =
    if not (mode / 16 % 2 =ℕ 0) || not (mode / 2 % 2 =ℕ 0)
    then (
      false,
      concat (
          "mode "
          ∷ octal mode
          ∷ " lets group or other write into the state directory, which permits replacing the token files inside it"
          ∷ []),
    )
    else (true, concat ("mode " ∷ octal mode ∷ " (not group- or world-writable)" ∷ []))

module _ (account : Account) where
  -- `_accepted_principals`
  unfoldable pub accepted_principals : List String
  unfolding concat
  accepted_principals = map account.casefold (
      account.user
      ∷ (qualified account.user account.user_domain
          ++ qualified account.user account.computer_name))

  abbrev failure : String → String → String
  failure stdout stderr = concat (
      "icacls failed: "
      ∷ first_line (account.splitlines (strip (if stderr == "" then stdout else stderr)))
      ∷ [])

  -- `principal.casefold() not in accepted`
  abbrev pub is_foreign : List String → String × String → Bool
  is_foreign accepted ace = not (elem (account.casefold ace.0) accepted)

  abbrev names : List (String × String) → String
  names aces = join ", " (account.sorted (map (λ ace. ace.0) aces))

  -- `_windows_permissions_ok`, of the entries
  unfoldable pub judge_entries : List (String × String) → Bool × String
  unfolding accepted_principals has_inherited concat join show
  judge_entries aces =
      let foreign = keep (is_foreign accepted_principals) aces in
      let inherited = keep has_inherited aces in
      if is_empty aces
      then (false, "icacls returned no access-control entries to verify")
      else if not (is_empty foreign)
      then (
        false,
        concat (
            "token file is accessible to "
            ∷ names foreign
            ∷ "; expected only "
            ∷ account.user
            ∷ []),
      )
      else if not (is_empty inherited)
      then (
        false,
        concat (
            "inherited permissions are still present for "
            ∷ names inherited
            ∷ "; /inheritance:r did not take effect"
            ∷ []),
      )
      else (
        true,
        concat ("ACL grants only " ∷ account.user ∷ " (" ∷ show (length aces) ∷ " entry set)" ∷ []),
      )

  -- `_windows_permissions_ok`
  unfoldable pub windows_permissions_ok : String → Icacls → Bool × String
  unfolding judge_entries aces_of remove_first concat strip
  windows_permissions_ok path missing =
      (false, "icacls is not available on PATH; ACL could not be verified")
  windows_permissions_ok path timed_out =
      (false, "icacls did not complete; ACL could not be verified")
  windows_permissions_ok path (os_error e) =
      (false, concat ("icacls could not be run (" ∷ e ∷ "); ACL could not be verified" ∷ []))
  windows_permissions_ok path (completed code stdout stderr) =
      if code =ℕ 0
      then judge_entries (aces_of (account.splitlines (remove_first path stdout)))
      else (false, failure stdout stderr)

  -- `permissions_ok`: whether the file exists, the platform, the mode that `stat` gives or the text of
  -- its `OSError`, and the run of `icacls`
  unfoldable pub permissions_ok : String → Bool → Bool → Result String ℕ → Icacls → Bool × String
  unfolding windows_permissions_ok posix_permissions_ok concat
  permissions_ok path exists is_windows stat icacls =
      if not exists
      then (false, concat (path ∷ " does not exist" ∷ []))
      else if is_windows
      then windows_permissions_ok path icacls
      else elim stat [
        | raise e ↦ (false, concat ("permissions could not be read: " ∷ e ∷ []))
        | ok mode ↦ posix_permissions_ok (mode % 512)
      ]

  -- `directory_permissions_ok` on Windows, of the entries
  unfoldable pub judge_directory : List (String × String) → Bool × String
  unfolding accepted_principals concat join
  judge_directory aces =
      let foreign = keep (is_foreign (accepted_principals ++ benign_directory_principals)) aces in
      if is_empty foreign
      then (true, concat ("ACL grants only " ∷ account.user ∷ " and the system accounts" ∷ []))
      else (
        false,
        concat (
            "state directory is writable by "
            ∷ join ", " (account.sorted_set (map (λ ace. ace.0) foreign))
            ∷ "; a principal who can write this directory can replace the token files inside it regardless of their own permissions"
            ∷ []),
      )

  -- `directory_permissions_ok` on Windows
  unfoldable pub windows_directory_ok : String → Icacls → Bool × String
  unfolding judge_directory aces_of remove_first concat strip
  windows_directory_ok path missing =
      (false, "icacls is not available on PATH; ACL could not be verified")
  windows_directory_ok path timed_out =
      (false, "icacls did not complete; ACL could not be verified")
  windows_directory_ok path (os_error e) =
      (false, concat ("icacls could not be run (" ∷ e ∷ "); ACL could not be verified" ∷ []))
  windows_directory_ok path (completed code stdout stderr) =
      if code =ℕ 0
      then judge_directory (aces_of (account.splitlines (remove_first path stdout)))
      else (false, failure stdout stderr)

  -- `directory_permissions_ok`, with `path.is_dir()` after `path.exists()`
  unfoldable pub directory_permissions_ok :
      String → Bool → Bool → Bool → Result String ℕ → Icacls → Bool × String
  unfolding windows_directory_ok posix_directory_ok concat
  directory_permissions_ok path exists is_dir is_windows stat icacls =
      if not exists
      then (false, concat (path ∷ " does not exist" ∷ []))
      else if not is_dir
      then (false, concat (path ∷ " is not a directory" ∷ []))
      else if is_windows
      then windows_directory_ok path icacls
      else elim stat [
        | raise e ↦ (false, concat ("permissions could not be read: " ∷ e ∷ []))
        | ok mode ↦ posix_directory_ok (mode % 512)
      ]
