-- ===== src/Gateway/Auth/Writing.antt =====
-- gateway/auth.py: `secure_write` and the readback of what it wrote, step by step on a disk.
use hermes_auto.Config.Yaml.{FileText}
use hermes_auto.Gateway.Auth.{
  Account, Icacls, missing, timed_out, os_error, completed, permissions_ok,
}
use hermes_auto.Prelude.Result.{Result, ok, raise}
use hermes_auto.Prelude.{
  ℕ, String, Bool, true, false, ◌=ℕ◌, Option, none, some, List, [], ◌∷◌, ◌==◌, if◌then◌else◌,
}
use hermes_auto.Supervisor.Machine.{Unlinked, failed}
use hermes_auto.Text.{concat}

-- the outcome of `os.open` with `O_CREAT | O_EXCL`, with the text of the exception
pub data Opened : Type 0 where
  opened : Opened
  file_exists : String → Opened
  not_opened : String → Opened

-- The operating system, for one path. `W` is all the state outside, so that another process may act
-- between any two calls.
pub record Disk (W : Type 0) : Type 0 where
  pub is_windows : Bool
  pub exists : W → Bool × W
  -- `mkdir` of the directory, with the text of its `OSError`
  pub make_directory : W → Option String × W
  pub unlink : W → Unlinked × W
  pub open_exclusive : W → Opened × W
  -- `write`, `flush` and `fsync`, with the text of their `OSError`
  pub write : String → W → Option String × W
  -- `_run_icacls`, with the arguments after the path
  pub icacls : List String → W → Icacls × W
  pub stat : W → Result String ℕ × W
  pub read_text : W → FileText × W
  -- `secrets.token_bytes`, as hexadecimal digits, or `secrets.token_urlsafe`
  pub random : W → String × W

-- a step on the world
abbrev pub Step : Type 0 → Type 0 → Type 0
Step W A = W → A × W

infixl 5 ◌>>=◌
abbrev pub ◌>>=◌ : {W A B : Type 0} → Step W A → (A → Step W B) → Step W B
p >>= f = λ w. let r = p w in f r.0 r.1

abbrev pub done : {W A : Type 0} → A → Step W A
done a = λ w. (a, w)

-- An `AuthError`, or an `OSError` that nothing catches.
pub data WriteError : Type 0 where
  auth_error : String → WriteError
  escaped_os_error : String → WriteError

abbrev Written : Type 0
Written = Result WriteError (Unit {0})

-- the principals of `_restrict_windows_acl`
unfoldable pub principals : Account → List String
unfolding concat
principals account = elim account.user_domain [
  | none ↦ account.user ∷ []
  | some domain ↦
      if domain == ""
      then account.user ∷ []
      else concat (domain ∷ "\\" ∷ account.user ∷ []) ∷ account.user ∷ []
]

module _ {W : Type 0} (disk : Disk W) (account : Account) (path : String) where
  -- an iteration of `_restrict_windows_acl`; `rest` is the loop over the other principals
  abbrev pub granted : Step W Written → Icacls → Step W Written
  granted rest missing = done (ok tt)
  granted rest timed_out = done (ok tt)
  granted rest (os_error e) = done (raise (escaped_os_error e))
  granted rest (completed code stdout stderr) = if code =ℕ 0 then done (ok tt) else rest

  -- `_restrict_windows_acl`
  unfoldable pub restrict_windows_acl : List String → Step W Written
  unfolding concat
  restrict_windows_acl [] = done (ok tt)
  restrict_windows_acl (principal ∷ rest) =
      disk.icacls ("/inheritance:r" ∷ "/grant:r" ∷ concat (principal ∷ ":F" ∷ []) ∷ [])
      >>= granted (restrict_windows_acl rest)

  abbrev failing : String → String → Written
  failing told e = raise (auth_error (concat (path ∷ ": " ∷ told ∷ ": " ∷ e ∷ [])))

  -- `secure_write`, once the data is written
  abbrev pub after_write : Option String → Step W Written
  after_write (some e) = done (failing "could not be written" e)
  after_write none =
      if disk.is_windows then restrict_windows_acl (principals account) else done (ok tt)

  -- `secure_write`, once the file is open
  abbrev pub after_open : String → Opened → Step W Written
  after_open data_ opened = disk.write data_ >>= after_write
  after_open data_ (file_exists e) = done (failing "could not be created securely" e)
  after_open data_ (not_opened e) = done (failing "could not be created securely" e)

  -- `secure_write`, once an older file is gone
  abbrev pub after_unlink : String → Unlinked → Step W Written
  after_unlink data_ (failed e) = done (failing "could not be replaced" e)
  after_unlink data_ outcome = disk.open_exclusive >>= after_open data_

  abbrev pub after_directory : String → Option String → Step W Written
  after_directory data_ (some e) = done (raise (escaped_os_error e))
  after_directory data_ none = disk.unlink >>= after_unlink data_

  unfoldable pub secure_write : String → Step W Written
  unfolding restrict_windows_acl principals concat
  secure_write data_ = disk.make_directory >>= after_directory data_

  -- `permissions_ok`, of a file that is there
  abbrev pub permissions_of_file : Step W (Bool × String)
  permissions_of_file =
      if disk.is_windows
      then (disk.icacls [] >>= λ icacls.
          done (permissions_ok account path true true (raise "") icacls))
      else (disk.stat >>= λ stat. done (permissions_ok account path true false stat missing))

  -- `permissions_ok`, with its calls
  unfoldable pub read_permissions : Step W (Bool × String)
  unfolding permissions_ok
  read_permissions = disk.exists >>= λ found.
      if found
      then permissions_of_file
      else done (permissions_ok account path false disk.is_windows (raise "") missing)

  abbrev minted : String → Written → Step W (Result WriteError String)
  minted token (raise e) = done (raise e)
  minted token (ok u) = done (ok token)

  -- `mint_token`, and `mint_admin_token` of gateway/admin.py, of the path of the token
  unfoldable pub mint_token : Step W (Result WriteError String)
  unfolding secure_write
  mint_token = disk.random >>= λ token. secure_write token >>= minted token
