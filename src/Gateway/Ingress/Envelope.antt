-- ===== src/Gateway/Ingress/Envelope.antt =====
-- What `strip_envelope` of gateway/ingress.py leaves of a body.
use hermes_auto.Gateway.Ingress.{strip_envelope, envelope_key}
use hermes_auto.Json.{Value, str, Fields, end, field, get, pop, put}
use hermes_auto.Prelude.Result.{ok}
use hermes_auto.Prelude.{String, ◌≡◌, refl, ap, ◌∙◌, none, some, arith, eq_iff, ◌==◌, if◌then◌else◌}

pub get-pop : (k j : String) (fs : Fields) → get j (pop k fs) ≡ (if k == j then none else get j fs)
unfolding get pop
get-pop k j end = ground arith
get-pop k j (field i v fs) = ground (arith, get-pop k j fs, eq_iff k j, eq_iff i k, eq_iff i j)

pub get-put :
    (k j : String) (v : Value) (fs : Fields)
    → get j (put k v fs) ≡ (if k == j then some v else get j fs)
unfolding get put
get-put k j v end = refl
get-put k j v (field i w fs) = ground (arith, get-put k j v fs, eq_iff k j, eq_iff i k, eq_iff i j)

strip_envelope-pop :
    (body forwarded envelope : Fields)
    → strip_envelope body ≡ ok (forwarded, envelope)
    → forwarded ≡ pop envelope_key body
unfolding strip_envelope
strip_envelope-pop body forwarded envelope h = ground arith

-- A stripped body with another model holds, under each key, that model, no envelope, and otherwise what
-- the body held.
pub forwarded_fields :
    (body forwarded envelope : Fields) (model key : String)
    → strip_envelope body ≡ ok (forwarded, envelope)
    → get key (put "model" (str model) forwarded) ≡ (
        if "model" == key
        then some (str model)
        else if envelope_key == key
        then none
        else get key body)
forwarded_fields body forwarded envelope model key h =
    get-put "model" key (str model) forwarded
    ∙ ap (λ v. if "model" == key then some (str model) else v)
        (ap (get key) (strip_envelope-pop body forwarded envelope h)
          ∙ get-pop envelope_key key body)
