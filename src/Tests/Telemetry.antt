-- ===== src/Tests/Telemetry.antt =====
-- The theorems on the log sink at concrete inputs.
use hermes_auto.Config.Yaml.{contents}
use hermes_auto.Gateway.Auth.Writing.{Disk, opened, read_permissions, secure_write}
use hermes_auto.Gateway.Auth.{Account, missing, permissions_ok, posix_permissions_ok}
use hermes_auto.Supervisor.Machine.{removed}
use hermes_auto.Telemetry.Sink.{LogRecord, positional, safe_record}
use hermes_auto.Telemetry.Trusted.{Trusted, load_or_create_salt-Trusted}
use hermes_auto.Dict.{elem}
use hermes_auto.Json.{Value, Fields, Items}
use hermes_auto.Prelude.Result.{Result, ok}
use hermes_auto.Prelude.{List, [], ◌∷◌, ℕ, Bool, false, none, some, All, String, true, ◌≡◌, refl}
use hermes_auto.Telemetry.Alike.{Alike, banned, both_end, dicts, kept, same, redact-Alike}
use hermes_auto.Telemetry.Clean.{CleanArgs, IsCovered, safe_record-IsClean, IsAllowed, IsClean}
use hermes_auto.Telemetry.Events.{Event, get, text, dict, str, entry, end}
use hermes_auto.Telemetry.Redaction.{
  banned_keys, redact, redact_node, logged, name_of, note_dropped, prior_of, merge, value_list,
  take_entry, take_digest, safe_digest,
}
use hermes_auto.Telemetry.Salt.{Hex, load_or_create_salt, SaltError, session_digest}
use hermes_auto.Json.{put}
use hermes_auto.Text.{lower}

-- case folding of the texts here, which are ASCII
abbrev casefold : String → String
casefold = lower

abbrev hmac : String → String → String
hmac key message = "digest"

abbrev salt : Result SaltError String
salt = ok "salt"

abbrev logged_with : String → Event
logged_with prompt = dict (
    entry (text "event") (str "route")
      (entry (text "Prompt") (str prompt) (entry (text "session_id") (str "s-1") end)))

note : IsAllowed casefold "_redacted"
unfolding lower
note = (refl, refl)

hash : IsAllowed casefold "root_session_hash"
unfolding lower
hash = (refl, refl)

failure : IsAllowed casefold "_redaction_error"
unfolding lower
failure = (refl, refl)

is_banned : elem (casefold "Prompt") banned_keys ≡ true
unfolding lower
is_banned = refl

prompts-Alike : Alike casefold hmac salt (logged_with "my secret") (logged_with "another")
unfolding name_of
prompts-Alike = dicts (
    kept (text "event") (same (str "route")) (
      banned (text "Prompt") "Prompt" (str "my secret") (str "another") refl is_banned
        (kept (text "session_id") (same (str "s-1")) both_end)))

redact-Alike_example :
    redact casefold hmac salt (logged_with "my secret")
    ≡ redact casefold hmac salt (logged_with "another")
redact-Alike_example = redact-Alike casefold hmac salt note prompts-Alike

redacted :
    redact casefold hmac salt (logged_with "my secret")
    ≡ Value.obj (
        Fields.field "event" (Value.str "route") (
          Fields.field "root_session_hash" (Value.str "digest") (
            Fields.field "_redacted"
              (Value.arr (Items.cons (Value.str "Prompt") Items.nil))
              Fields.end)))
unfolding redact get redact_node logged name_of note_dropped prior_of merge value_list take_entry
    take_digest safe_digest session_digest put lower
redacted = refl

-- a record with a banned attribute
abbrev line : LogRecord
line = record {
  msg = logged_with "my secret";
  args = positional (str "x" ∷ []);
  extra = ("token", str "t") ∷ [];
}

safe_record-IsClean_example :
    IsClean casefold (safe_record casefold hmac salt line).msg
    × CleanArgs casefold (safe_record casefold hmac salt line).args
    × All (IsCovered casefold) (safe_record casefold hmac salt line).extra
safe_record-IsClean_example = safe_record-IsClean casefold hmac salt note hash failure line

abbrev salt_bytes : List ℕ
salt_bytes =
    1 ∷ 2 ∷ 3 ∷ 4 ∷ 5 ∷ 6 ∷ 7 ∷ 8 ∷ 1 ∷ 2 ∷ 3 ∷ 4 ∷ 5 ∷ 6 ∷ 7 ∷ 8 ∷ 1 ∷ 2 ∷ 3 ∷ 4 ∷ 5 ∷ 6 ∷ 7 ∷ 8
    ∷ 1 ∷ 2 ∷ 3 ∷ 4 ∷ 5 ∷ 6 ∷ 7 ∷ 8 ∷ []

abbrev hex : Hex
hex = record { from_hex = λ digits. some salt_bytes; to_hex = λ bytes. "0102" }

-- An empty disk, on POSIX; the world says whether the file is there.
abbrev disk : Disk Bool
disk = record {
  is_windows = false;
  exists = λ w. (w, w);
  make_directory = λ w. (none, w);
  unlink = λ w. (removed, false);
  open_exclusive = λ w. (opened, true);
  write = λ bytes w. (none, w);
  icacls = λ arguments w. (missing, w);
  stat = λ w. (ok 384, w);
  read_text = λ w. (contents "0102", w);
  random = λ w. ("0102", w);
}

abbrev account : Account
account = record {
  user = "ann";
  user_domain = none;
  computer_name = none;
  casefold = casefold;
  splitlines = λ output. output ∷ [];
  sorted = λ names. names;
  sorted_set = λ names. names;
}

created : (load_or_create_salt hex "salt" disk account salt_bytes false).0 ≡ ok salt_bytes
unfolding load_or_create_salt secure_write read_permissions permissions_ok posix_permissions_ok
created = refl

load_or_create_salt-Trusted_example :
    Trusted hex "salt" disk account salt_bytes salt_bytes
      (load_or_create_salt hex "salt" disk account salt_bytes false).1
load_or_create_salt-Trusted_example =
    load_or_create_salt-Trusted hex "salt" disk account salt_bytes false salt_bytes created
