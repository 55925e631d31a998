-- ===== src/Telemetry/Trusted.antt =====
-- Where a salt that is used comes from.
use hermes_auto.Gateway.Auth.Writing.{
  Disk, Opened, opened, file_exists, not_opened, Step, ◌>>=◌, WriteError, auth_error,
  escaped_os_error, read_permissions,
}
use hermes_auto.Gateway.Auth.{Account}
use hermes_auto.Prelude.Result.{Result, ok, raise, ok-injective}
use hermes_auto.Prelude.{
  ℕ, String, Bool, true, false, Option, none, some, List, ◌≡◌, refl, sym, ap, if◌then◌else◌,
}
use hermes_auto.Telemetry.Salt.{
  Hex, SaltError, after_claim, after_make, after_secure_write, load_or_create_salt, read_salt_file,
  verified,
}

module _ {W : Type 0} (hex : Hex) (path : String) (disk : Disk W) (account : Account)
    (fresh : List ℕ) where
  -- What was done last, to arrive in the world `after`: the salt was read from the file, or the fresh
  -- one was written and its file's permissions were read back as those of its owner alone.
  pub data Trusted (salt : List ℕ) (after : W) : Type 0 where
    from_file :
        (w : W) → read_salt_file hex path disk account w ≡ (ok salt, after) → Trusted salt after
    verified_fresh :
        (w : W)
        → salt ≡ fresh
        → (read_permissions disk account path w).0.0 ≡ true
        → (read_permissions disk account path w).1 ≡ after
        → Trusted salt after

  -- a step that returns a salt only if it can be trusted
  abbrev Trusts : Step W (Result SaltError (List ℕ)) → Type 0
  Trusts m = (w : W) (salt : List ℕ) → (m w).0 ≡ ok salt → Trusted salt (m w).1

  read-Trusts : Trusts (read_salt_file hex path disk account)
  read-Trusts w salt h =
      from_file w (ap (λ outcome. (outcome, (read_salt_file hex path disk account w).1)) h)

  -- after the readback of the permissions in the world `w`
  answer-Trusts :
      (w : W) (answer : (Bool × String) × W)
      → read_permissions disk account path w ≡ answer
      → (salt : List ℕ) → (verified hex path disk account fresh answer.0 answer.1).0 ≡ ok salt
      → Trusted salt (verified hex path disk account fresh answer.0 answer.1).1
  answer-Trusts w ((true, reason), after) e salt h =
      verified_fresh w (sym (ok-injective h)) (ap (λ r. r.0.0) e) (ap (λ r. r.1) e)
  answer-Trusts w ((false, reason), after) e salt h = absurd (cc)

  verified-Trusts :
      (w : W) (salt : List ℕ)
      → ((read_permissions disk account path >>= verified hex path disk account fresh) w).0
        ≡ ok salt
      → Trusted salt
          ((read_permissions disk account path >>= verified hex path disk account fresh) w).1
  verified-Trusts w salt h = answer-Trusts w (read_permissions disk account path w) refl salt h

  secured-Trusts :
      (outcome : Result WriteError (Unit {0}))
      → Trusts (after_secure_write hex path disk account fresh outcome)
  secured-Trusts (raise (auth_error e)) w salt h = absurd (cc)
  secured-Trusts (raise (escaped_os_error e)) w salt h = absurd (cc)
  secured-Trusts (ok u) w salt h = verified-Trusts w salt h

  claimed-Trusts : (claim : Opened) → Trusts (after_claim hex path disk account fresh claim)
  claimed-Trusts opened w salt h = secured-Trusts _ _ salt h
  claimed-Trusts (file_exists e) w salt h = read-Trusts w salt h
  claimed-Trusts (not_opened e) w salt h = absurd (cc)

  made-Trusts : (made : Option String) → Trusts (after_make hex path disk account fresh made)
  made-Trusts (some e) w salt h = absurd (cc)
  made-Trusts none w salt h = claimed-Trusts _ _ salt h

  found-Trusts :
      (found : Bool)
      → Trusts (
          if found
          then read_salt_file hex path disk account
          else (disk.make_directory >>= after_make hex path disk account fresh))
  found-Trusts true w salt h = read-Trusts w salt h
  found-Trusts false w salt h = made-Trusts _ _ salt h

  -- A salt that `_load_or_create_salt` returns was last read from the file, or it is the fresh one and
  -- the permissions of its file were last read back as those of the owner alone, whatever other
  -- processes do between the calls.
  pub load_or_create_salt-Trusted :
      (w : W) (salt : List ℕ)
      → (load_or_create_salt hex path disk account fresh w).0 ≡ ok salt
      → Trusted salt (load_or_create_salt hex path disk account fresh w).1
  unfolding load_or_create_salt
  load_or_create_salt-Trusted w salt h = found-Trusts (disk.exists w).0 (disk.exists w).1 salt h
