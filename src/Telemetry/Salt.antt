-- ===== src/Telemetry/Salt.antt =====
-- The salt file, and the digest of a session id under the salt.
use hermes_auto.Config.Yaml.{FileText, unreadable, not_utf8, contents}
use hermes_auto.Gateway.Auth.Writing.{
  Disk, Opened, opened, file_exists, not_opened, Step, ◌>>=◌, done, WriteError, auth_error,
  escaped_os_error, read_permissions, secure_write,
}
use hermes_auto.Gateway.Auth.{Account}
use hermes_auto.Prelude.Result.{Result, ok, raise}
use hermes_auto.Prelude.{
  ℕ, String, Bool, Option, none, some, List, [], ◌∷◌, length, ◌=ℕ◌, if◌then◌else◌,
}
use hermes_auto.Text.{concat, show, strip}

-- A `RedactionError`, or the type of another exception.
pub data SaltError : Type 0 where
  redaction_error : String → SaltError
  escaped : String → SaltError

-- `session_digest`, of a text
unfoldable pub session_digest :
    (String → String → String) → Result SaltError String → String → Result SaltError String
session_digest hmac (raise e) session_id = raise e
session_digest hmac (ok key) session_id = ok (hmac key session_id)

-- `bytes.fromhex`, where `none` is a `ValueError`, and `bytes.hex`
pub record Hex : Type 0 where
  pub from_hex : String → Option (List ℕ)
  pub to_hex : List ℕ → String

module _ (hex : Hex) (path : String) where
  abbrev pub salt_error : String → SaltError
  salt_error detail = redaction_error (concat (path ∷ ": " ∷ detail ∷ []))

  abbrev sized : List ℕ → Result SaltError (List ℕ)
  sized salt =
      if length salt =ℕ 32
      then ok salt
      else raise
          (salt_error (concat ("salt is " ∷ show (length salt) ∷ " bytes, expected 32" ∷ [])))

  abbrev decoded : Option (List ℕ) → Result SaltError (List ℕ)
  decoded none = raise (
      salt_error
        "salt file is not hex-encoded; refusing to guess at its contents. Delete it to have a new salt generated -- note that digests written under the old salt will no longer correlate.")
  decoded (some salt) = sized salt

  -- `_read_salt_file`, of the text that is read as ASCII; the `UnicodeDecodeError` is not caught
  unfoldable pub salt_of_text : FileText → Result SaltError (List ℕ)
  unfolding concat show strip
  salt_of_text (unreadable e) =
      raise (salt_error (concat ("salt file could not be read: " ∷ e ∷ [])))
  salt_of_text (not_utf8 e) = raise (escaped "UnicodeDecodeError")
  salt_of_text (contents written) = decoded (hex.from_hex (strip written))

  module _ {W : Type 0} (disk : Disk W) (account : Account) where
    abbrev pub Loaded : Type 0
    Loaded = Result SaltError (List ℕ)

    -- `_read_salt_file`
    unfoldable pub read_salt_file : Step W Loaded
    unfolding salt_of_text
    read_salt_file = disk.read_text >>= λ file. done (salt_of_text file)

    -- `path.unlink()`, its `OSError` ignored, and the exception again
    abbrev pub removed_with : SaltError → Step W Loaded
    removed_with e = disk.unlink >>= λ _. done (raise e)

    abbrev unverified : String → SaltError
    unverified reason = salt_error (
        concat (
          "salt permissions could not be verified as owner-only (" ∷ reason
          ∷ "). A readable salt makes every root_session_hash precomputable, so this is refused rather than warned about."
          ∷ []))

    -- `_restrict_permissions`
    abbrev pub verified : List ℕ → Bool × String → Step W Loaded
    verified salt (found, reason) =
        if found then done (ok salt) else removed_with (unverified reason)

    -- `_load_or_create_salt`, after `secure_write`
    abbrev pub after_secure_write : List ℕ → Result WriteError (Unit {0}) → Step W Loaded
    after_secure_write salt (raise (auth_error e)) =
        removed_with (salt_error (concat ("salt file could not be written: " ∷ e ∷ [])))
    after_secure_write salt (raise (escaped_os_error e)) = done (raise (escaped "OSError"))
    after_secure_write salt (ok u) = read_permissions disk account path >>= verified salt

    -- after the claim of the path
    abbrev pub after_claim : List ℕ → Opened → Step W Loaded
    after_claim salt opened =
        secure_write disk account path (hex.to_hex salt) >>= after_secure_write salt
    after_claim salt (file_exists e) = read_salt_file
    after_claim salt (not_opened e) =
        done (raise (salt_error (concat ("salt file could not be created: " ∷ e ∷ []))))

    -- after the directory is made; `salt` is what `secrets.token_bytes` returns
    abbrev pub after_make : List ℕ → Option String → Step W Loaded
    after_make salt (some e) =
        done (raise (salt_error (concat ("state directory could not be created: " ∷ e ∷ []))))
    after_make salt none = disk.open_exclusive >>= after_claim salt

    -- `_load_or_create_salt`
    unfoldable pub load_or_create_salt : List ℕ → Step W Loaded
    unfolding read_salt_file read_permissions secure_write concat
    load_or_create_salt salt = disk.exists >>= λ found.
        if found then read_salt_file else (disk.make_directory >>= after_make salt)

-- `_salt_cache`, in `_salt_for`: the salt of a resolved directory, once it is known
unfoldable pub cached_salt :
    {W : Type 0}
    → Step W (Result SaltError (List ℕ))
    → Option (List ℕ)
    → Step W (Result SaltError (List ℕ) × Option (List ℕ))
cached_salt load (some salt) = done (ok salt, some salt)
cached_salt load none = load >>= λ outcome. elim outcome [
  | ok salt ↦ done (ok salt, some salt)
  | raise e ↦ done (raise e, none)
]
