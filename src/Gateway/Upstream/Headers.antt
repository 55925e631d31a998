-- ===== src/Gateway/Upstream/Headers.antt =====
-- The headers of the outbound request and of the relayed response.
use hermes_auto.Dict.{elem}
use hermes_auto.Gateway.Upstream.{
  Header, hop_by_hop_headers, request_drop_headers, filter_headers, filter_request_headers,
  filter_response_headers, dedupe, is_single, own_headers, build_headers, credential_header,
}
use hermes_auto.Prelude.{
  String, ◌≡◌, refl, sym, ap, ◌∙◌, subst, Bool, true, false, false≢true, ◌||◌, Option, none, some,
  List, [], ◌∷◌, ◌++◌, reverse, ◌==◌, if◌then◌else◌, Bool-cases, inl, inr, arith, eq_iff,
}
use mathlib.Core.List.{reverse-cons, reverse-append, reverse-reverse, append-nil}
use hermes_auto.Text.{concat, lower}

-- The values of the headers of this name, in order.
unfoldable pub values : String → List Header → List String
values name [] = []
values name ((key, value) ∷ headers) =
    if lower key == name then value ∷ values name headers else values name headers

abbrev first_of : List String → List String
first_of [] = []
first_of (x ∷ xs) = x ∷ []

values-append :
    (name : String) (xs ys : List Header)
    → values name (xs ++ ys) ≡ values name xs ++ values name ys
unfolding values
values-append name [] ys = refl
values-append name ((key, value) ∷ xs) ys = ground (arith, values-append name xs ys)

reverse_step :
    (name key value : String) (vs : List String)
    → reverse vs ++ (if lower key == name then value ∷ [] else [])
      ≡ reverse (if lower key == name then value ∷ vs else vs)
reverse_step name key value vs = elim (Bool-cases (lower key == name)) [
  | inl e ↦ rw e (sym (reverse-cons value vs))
  | inr e ↦ rw e (append-nil (reverse vs))
]

values-reverse :
    (name : String) (xs : List Header) → values name (reverse xs) ≡ reverse (values name xs)
unfolding values
values-reverse name [] = refl
values-reverse name ((key, value) ∷ xs) = rw (reverse-cons (key, value) xs) (
    values-append name (reverse xs) ((key, value) ∷ [])
    ∙ rw (values-reverse name xs) (reverse_step name key value (values name xs)))

values-if :
    (name : String) (c : Bool) (xs ys : List Header)
    → values name (if c then xs else ys) ≡ (if c then values name xs else values name ys)
values-if name true xs ys = refl
values-if name false xs ys = refl

-- one step of the loop, for a header that the loop keeps once: `single` and `met` are its two tests,
-- `same` says that it has the name in question and `seen` that this name was met
single_step :
    (single met same seen : Bool) (v : String) (after before rest : List String)
    → (same ≡ true → single ≡ true)
    → (same ≡ true → met ≡ seen)
    → before ≡ (if seen then [] else first_of rest)
    → after ≡ (if (if same then true else seen) then [] else first_of rest)
    → (if single
        then (if met then before else (if same then v ∷ after else after))
        else (if same then v ∷ before else before))
      ≡ (if seen then [] else first_of (if same then v ∷ rest else rest))
single_step true true true true v after before rest f g h k = h
single_step true false true false v after before rest f g h k = rw k refl
single_step true true true false v after before rest f g h k = absurd (false≢true (sym (g refl)))
single_step true false true true v after before rest f g h k = absurd (false≢true (g refl))
single_step false met true seen v after before rest f g h k = absurd (false≢true (f refl))
single_step true true false seen v after before rest f g h k = h
single_step true false false seen v after before rest f g h k = k
single_step false met false seen v after before rest f g h k = h

plain_step :
    (single met same : Bool) (v : String) (after before rest : List String)
    → (same ≡ true → single ≡ false)
    → before ≡ rest
    → after ≡ rest
    → (if single
        then (if met then before else (if same then v ∷ after else after))
        else (if same then v ∷ before else before))
      ≡ (if same then v ∷ rest else rest)
plain_step false met true v after before rest f h k = ap (λ (l : List String). v ∷ l) h
plain_step false met false v after before rest f h k = h
plain_step true met true v after before rest f h k = absurd (false≢true (sym (f refl)))
plain_step true true false v after before rest f h k = h
plain_step true false false v after before rest f h k = k

values-dedupe_cons :
    (name : String) (seen : List String) (key value : String) (hs : List Header)
    → values name (dedupe seen ((key, value) ∷ hs)) ≡ (
        if is_single (lower key)
        then (if elem (lower key) seen
            then values name (dedupe seen hs)
            else (if lower key == name
                then value ∷ values name (dedupe (lower key ∷ seen) hs)
                else values name (dedupe (lower key ∷ seen) hs)))
        else (if lower key == name
            then value ∷ values name (dedupe seen hs)
            else values name (dedupe seen hs)))
unfolding dedupe values
values-dedupe_cons name seen key value hs =
    values-if name (is_single (lower key)) _ _
    ∙ ap
        (λ l.
          if is_single (lower key)
          then l
          else (if lower key == name
              then value ∷ values name (dedupe seen hs)
              else values name (dedupe seen hs)))
        (values-if name (elem (lower key) seen) _ _)

named : (name key : String) → (key == name) ≡ true → key ≡ name
named name key e = ground (arith, eq_iff key name)

if_same : (c : Bool) (x : List String) → (if c then x else x) ≡ x
if_same true x = refl
if_same false x = refl

values-dedupe :
    (name : String) (seen : List String) (hs : List Header)
    → is_single name ≡ true
    → values name (dedupe seen hs) ≡ (if elem name seen then [] else first_of (values name hs))
unfolding values dedupe
values-dedupe name seen [] single = sym (if_same (elem name seen) [])
values-dedupe name seen ((key, value) ∷ hs) single =
    values-dedupe_cons name seen key value hs
    ∙ single_step (is_single (lower key)) (elem (lower key) seen) (lower key == name)
        (elem name seen) value _ _ _ (λ e. ap is_single (named name (lower key) e) ∙ single)
        (λ e. ap (λ k. elem k seen) (named name (lower key) e)) (values-dedupe name seen hs single)
        (values-dedupe name (lower key ∷ seen) hs single)

values-dedupe_plain :
    (name : String) (seen : List String) (hs : List Header)
    → is_single name ≡ false
    → values name (dedupe seen hs) ≡ values name hs
unfolding values dedupe
values-dedupe_plain name seen [] plain = refl
values-dedupe_plain name seen ((key, value) ∷ hs) plain =
    values-dedupe_cons name seen key value hs
    ∙ plain_step (is_single (lower key)) (elem (lower key) seen) (lower key == name) value _ _ _
        (λ e. ap is_single (named name (lower key) e) ∙ plain)
        (values-dedupe_plain name seen hs plain)
        (values-dedupe_plain name (lower key ∷ seen) hs plain)

values-filter_headers :
    (name : String) (drop : List String) (hs : List Header)
    → values name (filter_headers drop hs) ≡ (if elem name drop then [] else values name hs)
unfolding values filter_headers
values-filter_headers name drop [] = ground arith
values-filter_headers name drop ((key, value) ∷ hs) =
    ground (arith, values-filter_headers name drop hs, eq_iff (lower key) name)

abbrev credential_values : Option String → List String
credential_values none = []
credential_values (some credential) = concat ("Bearer " ∷ credential ∷ []) ∷ []

-- The values that the provider receives for a name.
pub sent : Option String → List Header → String → List String
sent credential headers name =
    if name == "authorization"
    then credential_values credential
    else (if name == "content-type"
        then "application/json" ∷ []
        else (if name == "accept-encoding"
            then "identity" ∷ []
            else (if elem name request_drop_headers then [] else values name headers)))

-- the values of a name before the loop
abbrev given : Option String → List Header → String → List String
given credential headers name =
    (if elem name request_drop_headers then [] else values name headers)
    ++ values name (own_headers credential)

given_lem :
    (credential : Option String) (headers : List Header) (name : String)
    → values name (filter_request_headers headers ++ own_headers credential)
      ≡ given credential headers name
given_lem credential headers name =
    values-append name (filter_request_headers headers) (own_headers credential)
    ∙ ap (λ l. l ++ values name (own_headers credential))
        (values-filter_headers name request_drop_headers headers)

build-single :
    (credential : Option String) (headers : List Header) (name : String)
    → is_single name ≡ true
    → values name (build_headers credential headers)
      ≡ reverse (first_of (reverse (given credential headers name)))
unfolding build_headers
build-single credential headers name single =
    let all : List Header = filter_request_headers headers ++ own_headers credential in
    values-reverse name (dedupe [] (reverse all))
    ∙ ap reverse (values-dedupe name [] (reverse all) single)
    ∙ ap (λ l. reverse (first_of l))
        (values-reverse name all ∙ ap reverse (given_lem credential headers name))

build-plain :
    (credential : Option String) (headers : List Header) (name : String)
    → is_single name ≡ false
    → values name (build_headers credential headers) ≡ given credential headers name
unfolding build_headers
build-plain credential headers name plain =
    let all : List Header = filter_request_headers headers ++ own_headers credential in
    values-reverse name (dedupe [] (reverse all))
    ∙ ap reverse (values-dedupe_plain name [] (reverse all) plain ∙ values-reverse name all)
    ∙ reverse-reverse (values name all)
    ∙ given_lem credential headers name

last_one : (xs : List String) (x : String) → reverse (first_of (reverse (xs ++ x ∷ []))) ≡ x ∷ []
last_one xs x = ap (λ l. reverse (first_of l)) (reverse-append xs (x ∷ []))

sent-authorization :
    (credential : Option String) (headers : List Header)
    → values "authorization" (build_headers credential headers) ≡ credential_values credential
unfolding values lower
sent-authorization none headers = build-single none headers "authorization" refl
sent-authorization (some c) headers = build-single (some c) headers "authorization" refl

sent-content_type :
    (credential : Option String) (headers : List Header)
    → values "content-type" (build_headers credential headers) ≡ "application/json" ∷ []
unfolding values lower
sent-content_type none headers =
    build-single none headers "content-type" refl
    ∙ last_one (values "content-type" headers) "application/json"
sent-content_type (some c) headers =
    build-single (some c) headers "content-type" refl
    ∙ last_one (values "content-type" headers) "application/json"

sent-accept_encoding :
    (credential : Option String) (headers : List Header)
    → values "accept-encoding" (build_headers credential headers) ≡ "identity" ∷ []
unfolding values lower
sent-accept_encoding none headers = build-single none headers "accept-encoding" refl
sent-accept_encoding (some c) headers = build-single (some c) headers "accept-encoding" refl

-- a choice by three tests
by_tests :
    (a b c : Bool) (x p q r t : List String)
    → (a ≡ true → x ≡ p)
    → (b ≡ true → x ≡ q)
    → (c ≡ true → x ≡ r)
    → (a ≡ false → b ≡ false → c ≡ false → x ≡ t)
    → x ≡ (if a then p else (if b then q else (if c then r else t)))
by_tests true b c x p q r t f g h k = f refl
by_tests false true c x p q r t f g h k = g refl
by_tests false false true x p q r t f g h k = h refl
by_tests false false false x p q r t f g h k = k refl refl refl

none_of : (a b c : Bool) → a ≡ false → b ≡ false → c ≡ false → (b || c || a) ≡ false
none_of true b c h k l = absurd (false≢true (sym h))
none_of false true c h k l = absurd (false≢true (sym k))
none_of false false c h k l = rw l refl

unnamed : (key name : String) → (name == key) ≡ false → (key == name) ≡ false
unnamed key name e = ground (arith, eq_iff key name, eq_iff name key)

values-unnamed :
    (name key value : String) (headers : List Header)
    → (name == lower key) ≡ false
    → values name ((key, value) ∷ headers) ≡ values name headers
unfolding values
values-unnamed name key value headers e = rw (unnamed (lower key) name e) refl

own_headers-plain :
    (credential : Option String) (name : String)
    → (name == "authorization") ≡ false
    → (name == "content-type") ≡ false
    → (name == "accept-encoding") ≡ false
    → values name (own_headers credential) ≡ []
unfolding lower values
own_headers-plain none name a b c =
    let encoding : List Header = ("accept-encoding", "identity") ∷ [] in
    values-unnamed name "content-type" "application/json" encoding b
    ∙ values-unnamed name "accept-encoding" "identity" [] c
own_headers-plain (some k) name a b c =
    let bearer : List Header = credential_header (some k) in
    let encoding : List Header = ("accept-encoding", "identity") ∷ bearer in
    values-unnamed name "content-type" "application/json" encoding b
    ∙ values-unnamed name "accept-encoding" "identity" bearer c
    ∙ values-unnamed name "authorization" (concat ("Bearer " ∷ k ∷ [])) [] a

-- Of each name the provider receives exactly: under "authorization" the gateway's credential and
-- nothing of the client, JSON as the one content type, "identity" as the one accepted encoding,
-- nothing under the dropped names, and otherwise the client's values in their order.
pub build_headers-values :
    (credential : Option String) (headers : List Header) (name : String)
    → values name (build_headers credential headers) ≡ sent credential headers name
unfolding sent
build_headers-values credential headers name =
    by_tests (name == "authorization") (name == "content-type") (name == "accept-encoding")
      (values name (build_headers credential headers)) _ _ _ _
      (λ e.
        subst (λ n. values n (build_headers credential headers) ≡ credential_values credential)
          (sym (named "authorization" name e)) (sent-authorization credential headers))
      (λ e.
        subst (λ n. values n (build_headers credential headers) ≡ "application/json" ∷ [])
          (sym (named "content-type" name e)) (sent-content_type credential headers))
      (λ e.
        subst (λ n. values n (build_headers credential headers) ≡ "identity" ∷ [])
          (sym (named "accept-encoding" name e)) (sent-accept_encoding credential headers))
      (λ a b c.
        build-plain credential headers name (
          none_of (name == "authorization") (name == "content-type") (name == "accept-encoding") a b
            c)
        ∙ ap (λ l. (if elem name request_drop_headers then [] else values name headers) ++ l)
            (own_headers-plain credential name a b c)
        ∙ append-nil _)

-- The filter of the response leaves no hop-by-hop header and every other name's values in their order.
pub filter_response_headers-values :
    (headers : List Header) (name : String)
    → values name (filter_response_headers headers)
      ≡ (if elem name hop_by_hop_headers then [] else values name headers)
filter_response_headers-values headers name = values-filter_headers name hop_by_hop_headers headers
