-- ===== src/Tests/Json.antt =====
-- A faithful codec for the errors of the RPC layer: each text stands behind its length.
use treenq.Base.{
  ℕ, zero, suc, List, [], ◌∷◌, ◌++◌, Text, bytes, length, Result, ok, err, ◌≡◌, refl, ap,
}
use treenq.Go.Utf8.{IsUtf8}
use treenq.Vel.Error.{VelError}
use treenq.Vel.Rpc.{Codec}
use treenq.Client.RoundTrip.{IsFaithful, IsErrorJson}

abbrev put_text : Text → Text → Text
put_text t rest = length t ∷ t ++ rest

abbrev cut_text : ℕ → Text → Text → Text × Text
cut_text zero acc rest = ([], rest)
cut_text (suc n) acc [] = ([], [])
cut_text (suc n) acc (c ∷ rest) = let (t, left) = cut_text n acc rest in (c ∷ t, left)

abbrev get_text : Text → Text × Text
get_text [] = ([], [])
get_text (n ∷ s) = cut_text n [] s

get_text-put_text : (t rest : Text) → get_text (put_text t rest) ≡ (t, rest)
get_text-put_text [] rest = refl
get_text-put_text (c ∷ t) rest = ap (λ (p : Text × Text). (c ∷ p.0, p.1)) (get_text-put_text t rest)

abbrev put_pairs : List (Text × Text) → Text
put_pairs [] = []
put_pairs ((k, v) ∷ m) = put_text k (put_text v (put_pairs m))

abbrev get_pairs : ℕ → Text → List (Text × Text)
get_pairs zero s = []
get_pairs (suc n) s =
    let (k, s₁) = get_text s in let (v, s₂) = get_text s₁ in (k, v) ∷ get_pairs n s₂

get_pairs-put_pairs : (m : List (Text × Text)) → get_pairs (length m) (put_pairs m) ≡ m
get_pairs-put_pairs [] = refl
get_pairs-put_pairs ((k, v) ∷ m) =
    rw
      (
        get_text-put_text k (put_text v (put_pairs m)),
        get_text-put_text v (put_pairs m),
        get_pairs-put_pairs m,
      )
      refl

abbrev text_of : VelError → Text
text_of e = length e.meta ∷ put_text e.code (put_text e.message (put_pairs e.meta))

abbrev read_error : Text → Result VelError
read_error [] = err (bytes "EOF")
read_error (n ∷ s) =
    let (code, s₁) = get_text s in
    let (message, s₂) = get_text s₁ in
    ok (record { code = code; message = message; meta = get_pairs n s₂ })

abbrev read_body : Result Text → Result VelError
read_body (ok t) = read_error t
read_body (err e) = err e

abbrev pub error_json : Codec VelError
error_json = record { encode = λ e. ok (text_of e); decode = read_body }

read_error-text_of : (e : VelError) → read_error (text_of e) ≡ ok e
read_error-text_of e =
    rw
      (
        get_text-put_text e.code (put_text e.message (put_pairs e.meta)),
        get_text-put_text e.message (put_pairs e.meta),
        get_pairs-put_pairs e.meta,
      )
      refl

pub error_json-IsFaithful : IsErrorJson error_json
error_json-IsFaithful = record {
  text_of = text_of;
  encodes = λ e w. refl;
  decodes = λ e w. read_error-text_of e;
}

abbrev pub text_json : Codec Text
text_json = record { encode = λ t. ok t; decode = λ t. t }

pub text_json-IsFaithful : IsFaithful text_json IsUtf8
text_json-IsFaithful = record { text_of = λ t. t; encodes = λ t v. refl; decodes = λ t v. refl }
