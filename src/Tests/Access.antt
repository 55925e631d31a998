-- ===== src/Tests/Access.antt =====
-- The theorems on the admin scope and the token files at concrete inputs.
use hermes_auto.Gateway.Admin.Scope.{Presents, admin_middleware-Presents}
use hermes_auto.Gateway.Admin.{passed, admin_middleware, bearer}
use hermes_auto.Gateway.Auth.Owner.{IsPrivate, permissions_ok-IsPrivate}
use hermes_auto.Gateway.Auth.{
  Account, Icacls, completed, accepted_principals, permissions_ok, read_token,
  windows_permissions_ok, judge_entries, decode_ascii, token_of,
}
use hermes_auto.Gateway.Auth.Entries.{
  aces_of, ace_of, is_rights, has_inherited, remove_first, drop_chars,
}
use hermes_auto.Prelude.Result.{ok}
use hermes_auto.Prelude.{String, true, some, none, [], ◌∷◌, ◌≡◌, ◌↔◌, refl}
use hermes_auto.Runtime.{Contents, bytes}
use hermes_auto.Text.{concat, lower, partition, strip, lstrip, rstrip, ascii, contains, len}

-- "tok" with a newline
abbrev token_file : Contents
token_file = bytes (116 ∷ 111 ∷ 107 ∷ 10 ∷ [])

admin_middleware-Presents_example :
    (admin_middleware {A = String} true
        (some "Bearer tok")
        "admin-token"
        token_file
        ("/", "GET")
        "status"
      ≡ passed "status")
    ↔ Presents (some "Bearer tok") "admin-token" token_file
admin_middleware-Presents_example =
    admin_middleware-Presents {A = String} (some "Bearer tok") "admin-token" token_file ("/", "GET")
      "status"

token_presented : Presents (some "Bearer tok") "admin-token" token_file
unfolding bearer read_token decode_ascii token_of lower partition strip lstrip rstrip ascii
token_presented = record { token = "tok"; stored = refl; some_token = refl; supplied = refl }

abbrev account : Account
account = record {
  user = "ann";
  user_domain = some "BOX";
  computer_name = none;
  casefold = lower;
  splitlines = λ output. output ∷ [];
  sorted = λ names. names;
  sorted_set = λ names. names;
}

abbrev listing : Icacls
listing = completed 0 "C:\\t BOX\\Ann:(F)" ""

permissions_ok-IsPrivate_example :
    ((permissions_ok account "C:\\t" true true (ok 0) listing).0 ≡ true)
    ↔ IsPrivate account "C:\\t" true (ok 0) listing
permissions_ok-IsPrivate_example = permissions_ok-IsPrivate account "C:\\t" true (ok 0) listing

listing_accepted : (permissions_ok account "C:\\t" true true (ok 0) listing).0 ≡ true
unfolding permissions_ok windows_permissions_ok judge_entries aces_of ace_of is_rights has_inherited
    remove_first drop_chars accepted_principals lower strip lstrip rstrip contains len concat
listing_accepted = refl
