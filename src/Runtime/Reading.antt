-- ===== src/Runtime/Reading.antt =====
-- The checks on the runtime file's fields.
use hermes_auto.Json.{Value, Fields, obj, null, bool, int, float, str, arr, get}
use hermes_auto.Prelude.Result.{Result, ok, >>=-eq-ok, raise_if-eq-ok, Result-cases}
use hermes_auto.Prelude.{
  ℕ, String, ◌≡◌, ◌≢◌, refl, subst, some, List, ◌==◌, arith, Bool-cases, inl, inr, eq_iff,
}
use hermes_auto.Runtime.{
  RuntimeFile, Contents, absent, unreadable, bytes, to_fields, required_int, required_str,
  runtime_of_fields, runtime_of_value, read_runtime,
}
use hermes_auto.Text.{strip}

-- The object that a runtime file is written as is read back as that runtime file, unless its
-- instance id is blank.
pub runtime_of_value-to_fields :
    (target : String) (rf : RuntimeFile)
    → strip rf.instance_id ≢ ""
    → runtime_of_value target (obj (to_fields rf)) ≡ ok rf
unfolding runtime_of_value runtime_of_fields to_fields required_int required_str get
runtime_of_value-to_fields target rf ne = elim (Bool-cases (strip rf.instance_id == "")) [
  | inl e ↦ absurd (ground (arith, eq_iff (strip rf.instance_id) ""))
  | inr e ↦ rw e refl
]

runtime_of_fields-id :
    (target : String) (document : Fields) (rf : RuntimeFile)
    → runtime_of_fields target document ≡ ok rf
    → strip rf.instance_id ≢ ""
unfolding runtime_of_fields
runtime_of_fields-id target document rf h =
    let a = >>=-eq-ok (required_int target "pid" document) _ h in
    let b = >>=-eq-ok (required_int target "port" document) _ a.2 in
    let c = >>=-eq-ok (required_int target "admin_port" document) _ b.2 in
    let d = >>=-eq-ok (required_str target "instance_id" document) _ c.2 in
    let e = >>=-eq-ok (required_str target "started_at" document) _ d.2 in
    let f = >>=-eq-ok (required_str target "exe" document) _ e.2 in
    let g = raise_if-eq-ok _ _ f.2 in
    subst (λ (r : RuntimeFile). strip r.instance_id ≢ "") g.1
      (λ blank. ground (arith, eq_iff (strip d.0) "", blank, g.0))

runtime_of_value-id :
    (target : String) (v : Value) (rf : RuntimeFile)
    → runtime_of_value target v ≡ ok rf
    → strip rf.instance_id ≢ ""
unfolding runtime_of_value
runtime_of_value-id target (obj document) rf h = runtime_of_fields-id target document rf h
runtime_of_value-id target null rf h = absurd (cc)
runtime_of_value-id target (bool b) rf h = absurd (cc)
runtime_of_value-id target (int n) rf h = absurd (cc)
runtime_of_value-id target (float x) rf h = absurd (cc)
runtime_of_value-id target (str x) rf h = absurd (cc)
runtime_of_value-id target (arr x) rf h = absurd (cc)

-- A runtime file that is read has an instance id that is not blank.
pub read_runtime-id :
    (target : String) (loads : List ℕ → Result String Value) (contents : Contents)
    (rf : RuntimeFile)
    → read_runtime target loads contents ≡ ok (some rf)
    → strip rf.instance_id ≢ ""
unfolding read_runtime
read_runtime-id target loads absent rf h = absurd (cc)
read_runtime-id target loads (unreadable e) rf h = absurd (cc)
read_runtime-id target loads (bytes raw) rf h = elim (Result-cases (loads raw)) [
  | inl (e, k) ↦ absurd (ground arith)
  | inr (v, k) ↦ elim (Result-cases (runtime_of_value target v)) [
    | inl (e, l) ↦ absurd (ground arith)
    | inr (r, l) ↦ runtime_of_value-id target v rf (ground arith)
  ]
]
