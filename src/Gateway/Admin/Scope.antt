-- ===== src/Gateway/Admin/Scope.antt =====
-- Who passes the scope check of the admin API.
use hermes_auto.Gateway.Admin.{
  passed, admin_middleware, bearer, expected_admin_token, require_admin, require_token,
}
use hermes_auto.Gateway.Auth.{read_token}
use hermes_auto.Prelude.Result.{ok, Result-cases}
use hermes_auto.Prelude.{
  String, true, false, Option, none, some, ◌==◌, ◌≡◌, ◌↔◌, refl, ap, ◌∙◌, Bool-cases, Option-cases,
  inl, inr, arith, eq_iff, eq_refl,
}
use hermes_auto.Runtime.{Contents}

-- What a request with admin scope presents: the token that the file holds.
pub record Presents (header : Option String) (path : String) (contents : Contents) : Type 0 where
  pub token : String
  pub stored : read_token path contents ≡ ok (some token)
  pub some_token : (token == "") ≡ false
  pub supplied : bearer header ≡ token

require_token-passes :
    (supplied : String) (expected : Option String)
    → require_token supplied expected ≡ none
    → (token : String) × (expected ≡ some token) × ((token == "") ≡ false) × (supplied ≡ token)
unfolding require_token
require_token-passes supplied none h = absurd (cc)
require_token-passes supplied (some token) h = elim (Bool-cases (token == "")) [
  | inl e ↦ absurd (ground arith)
  | inr e ↦ elim (Bool-cases (supplied == token)) [
    | inl k ↦ (token, refl, e, (eq_iff supplied token).0 k)
    | inr k ↦ absurd (ground arith)
  ]
]

passes-require_token :
    (supplied token : String)
    → (token == "") ≡ false
    → supplied ≡ token
    → require_token supplied (some token) ≡ none
unfolding require_token
passes-require_token supplied token e k = rw (k, e, eq_refl token) refl

expected_admin_token-stored :
    (path : String) (contents : Contents) (token : String)
    → expected_admin_token path contents ≡ some token
    → read_token path contents ≡ ok (some token)
unfolding expected_admin_token
expected_admin_token-stored path contents token h = elim (Result-cases (read_token path contents)) [
  | inl (e, k) ↦ absurd (ground arith)
  | inr (o, k) ↦ k ∙ ap ok (ground arith)
]

stored-expected_admin_token :
    (path : String) (contents : Contents) (token : String)
    → read_token path contents ≡ ok (some token)
    → expected_admin_token path contents ≡ some token
unfolding expected_admin_token
stored-expected_admin_token path contents token h = ground arith

require_admin-Presents :
    (header : Option String) (path : String) (contents : Contents)
    → (require_admin header path contents ≡ none) ↔ Presents header path contents
unfolding require_admin
require_admin-Presents header path contents = (
  λ h.
      let (token, e, ne, same) =
        require_token-passes (bearer header) (expected_admin_token path contents) h in
      record {
        token = token;
        stored = expected_admin_token-stored path contents token e;
        some_token = ne;
        supplied = same;
      },
  λ p.
      ap (require_token (bearer header))
        (stored-expected_admin_token path contents p.token p.stored)
      ∙ passes-require_token (bearer header) p.token p.some_token p.supplied,
)

-- The outcome for each result of the check.
middleware-outcome :
    {A : Type 0} (header : Option String) (path : String) (contents : Contents)
    (asked : String × String) (answer : A)
    → (admin_middleware true header path contents asked answer ≡ passed answer)
      ↔ (require_admin header path contents ≡ none)
unfolding admin_middleware
middleware-outcome header path contents asked answer = (
  λ h. elim (Option-cases (require_admin header path contents)) [
    | inl e ↦ e
    | inr (e, k) ↦ absurd (ground arith)
  ],
  λ h. ground arith,
)

-- An HTTP request reaches the admin app exactly if the token file can be read, holds a token that is
-- not empty, and the bearer credential of the request is that token.
pub admin_middleware-Presents :
    {A : Type 0} (header : Option String) (path : String) (contents : Contents)
    (asked : String × String) (answer : A)
    → (admin_middleware true header path contents asked answer ≡ passed answer)
      ↔ Presents header path contents
admin_middleware-Presents header path contents asked answer =
    let (reached, reaches) = middleware-outcome header path contents asked answer in
    let (shown, shows) = require_admin-Presents header path contents in
    (λ h. shown (reached h), λ p. reaches (shows p))
