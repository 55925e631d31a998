-- ===== src/Gateway/Auth/Owner.antt =====
-- When a token file counts as reachable by its owner alone.
use hermes_auto.Gateway.Auth.Entries.{aces_of, has_inherited, remove_first}
use hermes_auto.Gateway.Auth.{
  Account, Icacls, missing, timed_out, os_error, completed, accepted_principals, is_foreign,
  judge_entries, qualified, permissions_ok, posix_permissions_ok, windows_permissions_ok,
}
use hermes_auto.Dict.{elem}
use hermes_auto.Text.{concat, contains}
use mathlib.Core.List.{append-nil}
use hermes_auto.Prelude.Result.{Result, ok, raise}
use hermes_auto.Prelude.{
  ◌≢◌, ◌⊎◌, ◌++◌, Option, none, some, map, sym, subst, eq_iff, ◌==◌, All-map, ℕ, zero, suc, ◌%◌,
  String, Bool, true, false, List, [], ◌∷◌, ◌≡◌, ◌↔◌, refl, All, keep, is_empty, Bool-cases, inl,
  inr, arith, ◌=ℕ◌,
}

module _ {ℓ} {A : Type ℓ} where
  -- A filter that keeps nothing refuses every element.
  keep-none : (p : A → Bool) (xs : List A) → is_empty (keep p xs) ≡ true → All (λ x. p x ≡ false) xs
  keep-none p [] h = tt
  keep-none p (x ∷ xs) h = elim (Bool-cases (p x)) [
    | inl e ↦ absurd (ground arith)
    | inr e ↦ (e, keep-none p xs (ground arith))
  ]

  none-keep : (p : A → Bool) (xs : List A) → All (λ x. p x ≡ false) xs → is_empty (keep p xs) ≡ true
  none-keep p [] h = refl
  none-keep p (x ∷ xs) h = rw h.0 (none-keep p xs h.1)

module _ (account : Account) where
  -- the name of this account at an authority
  abbrev pub at_authority : String → String
  at_authority q = concat (q ∷ "\\" ∷ account.user ∷ [])

  -- This is the name of an authority of this account: its domain or its computer.
  abbrev pub IsAuthority : String → Type 0
  IsAuthority q = (q ≢ "") × ((account.user_domain ≡ some q) ⊎ (account.computer_name ≡ some q))

  -- The principal denotes this account, whatever the case: by its bare name, or by its name at one of
  -- its authorities.
  pub data IsOwn (principal : String) : Type 0 where
    bare : account.casefold account.user ≡ account.casefold principal → IsOwn principal
    of_authority :
        (q : String)
        → IsAuthority q
        → account.casefold (at_authority q) ≡ account.casefold principal
        → IsOwn principal

  module _ (x : String) where
    abbrev Among : List String → Type 0
    Among l = elem x (map account.casefold l) ≡ true

    abbrev Names : Option String → Type 0
    Names o = (q : String) × (q ≢ "") × (o ≡ some q) × (account.casefold (at_authority q) ≡ x)

    elem-qualified :
        (o : Option String) (rest : List String)
        → Among (qualified account.user o ++ rest)
        → Names o ⊎ Among rest
    elem-qualified none rest h = inr h
    elem-qualified (some q) rest h = elim (Bool-cases (q == "")) [
      | inl e ↦ inr (ground arith)
      | inr e ↦ elim (Bool-cases (account.casefold (at_authority q) == x)) [
        | inl k ↦ inl (
          q,
          (λ n. ground (arith, eq_iff q "")),
          refl,
          ground (arith, eq_iff (account.casefold (at_authority q)) x),
        )
        | inr k ↦ inr (ground arith)
      ]
    ]

    qualified-elem :
        (o : Option String) (rest : List String)
        → Names o
        → Among (qualified account.user o ++ rest)
    qualified-elem none rest (q, some_name, e, k) = absurd (cc)
    qualified-elem (some p) rest (q, some_name, e, k) = elim (Bool-cases (p == "")) [
      | inl b ↦ absurd (some_name (ground (arith, eq_iff p "")))
      | inr b ↦ rw b (ground (arith, eq_iff (account.casefold (at_authority p)) x))
    ]

    rest-elem :
        (o : Option String) (rest : List String)
        → Among rest
        → Among (qualified account.user o ++ rest)
    rest-elem none rest h = h
    rest-elem (some q) rest h = elim (Bool-cases (q == "")) [
      | inl b ↦ rw b h
      | inr b ↦ rw b (ground arith)
    ]

  IsOwn-of_accepted :
      (ace : String × String)
      → is_foreign account (accepted_principals account) ace ≡ false
      → IsOwn ace.0
  unfolding accepted_principals
  IsOwn-of_accepted ace h =
      let x = account.casefold ace.0 in
      elim (Bool-cases (account.casefold account.user == x)) [
        | inl e ↦ bare (ground (arith, eq_iff (account.casefold account.user) x))
        | inr e ↦
            elim (elem-qualified x account.user_domain
              (qualified account.user account.computer_name) (ground arith)) [
                | inl (q, named, e, k) ↦ of_authority q (named, inl e) k
                | inr k ↦
                    elim (elem-qualified x account.computer_name [] (
                      subst (Among x)
                        (sym (append-nil (qualified account.user account.computer_name))) k)) [
                          | inl (q, named, e, k) ↦ of_authority q (named, inr e) k
                          | inr k ↦ absurd (cc)
                        ]
              ]
      ]

  accepted-elem :
      (principal : String)
      → IsOwn principal
      → elem (account.casefold principal) (accepted_principals account) ≡ true
  unfolding accepted_principals
  accepted-elem principal (bare e) =
      ground (arith, eq_iff (account.casefold account.user) (account.casefold principal))
  accepted-elem principal (of_authority q (named, inl e) k) =
      let x = account.casefold principal in
      let there =
        qualified-elem x account.user_domain (qualified account.user account.computer_name)
          (q, named, e, k) in
      ground arith
  accepted-elem principal (of_authority q (named, inr e) k) =
      let x = account.casefold principal in
      let there = rest-elem x account.user_domain (qualified account.user account.computer_name) (
        subst (Among x) (append-nil (qualified account.user account.computer_name))
          (qualified-elem x account.computer_name [] (q, named, e, k))) in
      ground arith

  accepted-of_IsOwn :
      (ace : String × String)
      → IsOwn ace.0
      → is_foreign account (accepted_principals account) ace ≡ false
  accepted-of_IsOwn ace h = rw (accepted-elem ace.0 h) refl

  -- Every entry is of this account, and none is inherited.
  pub record IsOwned (aces : List (String × String)) : Type 0 where
    pub some_entry : is_empty aces ≡ false
    pub own : All (λ ace. IsOwn ace.0) aces
    pub direct : All (λ ace. contains "(I)" ace.1 ≡ false) aces

  module _ (aces : List (String × String)) where
    abbrev foreign : List (String × String)
    foreign = keep (is_foreign account (accepted_principals account)) aces

    abbrev inherited : List (String × String)
    inherited = keep has_inherited aces

    judge_entries-empty :
        (judge_entries account aces).0 ≡ true
        → (is_empty aces ≡ false) × (is_empty foreign ≡ true) × (is_empty inherited ≡ true)
    unfolding judge_entries
    judge_entries-empty h = elim (Bool-cases (is_empty aces)) [
      | inl a ↦ absurd (ground arith)
      | inr a ↦ elim (Bool-cases (is_empty foreign)) [
        | inr b ↦ absurd (ground arith)
        | inl b ↦ elim (Bool-cases (is_empty inherited)) [
          | inr c ↦ absurd (ground arith)
          | inl c ↦ (a, b, c)
        ]
      ]
    ]

    empty-judge_entries :
        is_empty aces ≡ false
        → is_empty foreign ≡ true
        → is_empty inherited ≡ true
        → (judge_entries account aces).0 ≡ true
    unfolding judge_entries
    empty-judge_entries a b c = rw (a, b, c) refl

    judge_entries-IsOwned : ((judge_entries account aces).0 ≡ true) ↔ IsOwned aces
    unfolding has_inherited
    judge_entries-IsOwned = (
      λ h.
          let (a, b, c) = judge_entries-empty h in
          record {
            some_entry = a;
            own = All-map _ _ aces IsOwn-of_accepted (keep-none _ aces b);
            direct = keep-none _ aces c;
          },
      λ o.
          empty-judge_entries o.some_entry
            (none-keep _ aces (All-map _ _ aces accepted-of_IsOwn o.own))
            (none-keep _ aces o.direct),
    )

  -- What has to be read back of a token file: on Windows the entries of an `icacls` that succeeded,
  -- elsewhere the mode 0600.
  pub data IsPrivate (path : String) : Bool → Result String ℕ → Icacls → Type 0 where
    by_entries :
        {stat : Result String ℕ} (stdout stderr : String)
        → IsOwned (aces_of (account.splitlines (remove_first path stdout)))
        → IsPrivate path true stat (completed 0 stdout stderr)
    by_mode :
        {icacls : Icacls} (mode : ℕ) → mode % 512 ≡ 384 → IsPrivate path false (ok mode) icacls

  windows-IsPrivate :
      (path : String) (stat : Result String ℕ) (icacls : Icacls)
      → (windows_permissions_ok account path icacls).0 ≡ true
      → IsPrivate path true stat icacls
  unfolding windows_permissions_ok
  windows-IsPrivate path stat missing h = absurd (cc)
  windows-IsPrivate path stat timed_out h = absurd (cc)
  windows-IsPrivate path stat (os_error e) h = absurd (cc)
  windows-IsPrivate path stat (completed zero stdout stderr) h =
      by_entries stdout stderr
        ((judge_entries-IsOwned (aces_of (account.splitlines (remove_first path stdout)))).0 h)
  windows-IsPrivate path stat (completed (suc n) stdout stderr) h = absurd (ground arith)

  posix-IsPrivate :
      (path : String) (mode : ℕ) (icacls : Icacls)
      → (posix_permissions_ok (mode % 512)).0 ≡ true
      → IsPrivate path false (ok mode) icacls
  unfolding posix_permissions_ok
  posix-IsPrivate path mode icacls h = elim (Bool-cases (mode % 512 =ℕ 384)) [
    | inl e ↦ by_mode mode (ground arith)
    | inr e ↦ absurd (ground arith)
  ]

  permissions_ok-of :
      (path : String) (is_windows : Bool) (stat : Result String ℕ) (icacls : Icacls)
      → (permissions_ok account path true is_windows stat icacls).0 ≡ true
      → IsPrivate path is_windows stat icacls
  unfolding permissions_ok
  permissions_ok-of path true stat icacls h = windows-IsPrivate path stat icacls h
  permissions_ok-of path false (ok mode) icacls h = posix-IsPrivate path mode icacls h
  permissions_ok-of path false (raise e) icacls h = absurd (cc)

  of-permissions_ok :
      (path : String) {is_windows : Bool} {stat : Result String ℕ} {icacls : Icacls}
      → IsPrivate path is_windows stat icacls
      → (permissions_ok account path true is_windows stat icacls).0 ≡ true
  unfolding permissions_ok windows_permissions_ok posix_permissions_ok
  of-permissions_ok path (by_entries stdout stderr o) =
      (judge_entries-IsOwned (aces_of (account.splitlines (remove_first path stdout)))).1 o
  of-permissions_ok path (by_mode mode e) = rw e refl

  -- `permissions_ok` answers yes for a file that is there exactly if on Windows `icacls` succeeded and
  -- every entry that it listed, one at least, has no "(I)" Among its rights and a principal that is, up
  -- to its case, the user or the user at the domain or the computer that the environment names, or if
  -- elsewhere the mode is 0600.
  pub permissions_ok-IsPrivate :
      (path : String) (is_windows : Bool) (stat : Result String ℕ) (icacls : Icacls)
      → ((permissions_ok account path true is_windows stat icacls).0 ≡ true)
        ↔ IsPrivate path is_windows stat icacls
  permissions_ok-IsPrivate path is_windows stat icacls =
      (permissions_ok-of path is_windows stat icacls, of-permissions_ok path)
