-- ===== src/Services/Kube.antt =====
-- src/services/cdk/kube.go, `Apply`: a manifest is cut into chunks, these are decoded, and each
-- object is created in the cluster, or updated where it exists. The decoder and the dynamic client
-- are client-go's: parameters.
pub mod Applied
pub mod Chart
use treenq.Base.{List, [], ◌∷◌, ◌++◌, Text, bytes, Result, ok, err}
use treenq.Go.{split_text}

-- What `Create` returns; `errors.IsAlreadyExists` tells the second from the third.
pub data Creation : Type 0 where
  created : Creation
  already_exists : Creation
  not_created : Text → Creation

-- A dynamic client, with the calls of `Resource(gvr).Namespace(ns)`.
pub record DynamicClient (Object Resource S : Type 0) : Type 0 where
  pub create : Resource → Text → Object → S → Creation × S
  pub update : Resource → Text → Object → S → Result (Unit {0}) × S

pub record KubeLibrary (Object Resource S : Type 0) : Type 1 where
  pub RestConfig : Type 0
  pub rest_config : Text → Result RestConfig
  pub new_for_config : RestConfig → Result (DynamicClient Object Resource S)
  pub decode : Text → Result Object
  pub guess_resource : Object → Resource
  pub get_namespace : Object → Text

module _ {Object Resource S : Type 0} (lib : KubeLibrary Object Resource S) where
  abbrev pub chunks : Text → List Text
  chunks manifest = split_text (bytes "---") 0 manifest

  infixl 5 ◌>>=◌
  abbrev ◌>>=◌ {ℓ κ} : {A : Type ℓ} {B : Type κ} → Result A → (A → Result B) → Result B
  ok a >>= f = f a
  err e >>= f = err e

  abbrev decode_chunk : Text → Result Object
  decode_chunk chunk = elim (lib.decode chunk) [
    | ok obj ↦ ok obj
    | err e ↦ err (bytes "failed to decode YAML: " ++ e)
  ]

  unfoldable pub decode_all : List Text → Result (List Object)
  decode_all [] = ok []
  decode_all (chunk ∷ rest) = do obj ← decode_chunk chunk; objs ← decode_all rest; ok (obj ∷ objs)

  module _ (client : DynamicClient Object Resource S) where
    abbrev pub create_object : Object → S → Creation × S
    create_object obj s = client.create (lib.guess_resource obj) (lib.get_namespace obj) obj s

    abbrev pub update_object : Object → S → Result (Unit {0}) × S
    update_object obj s = client.update (lib.guess_resource obj) (lib.get_namespace obj) obj s

    abbrev updated : Result (Unit {0}) × S → Result (Unit {0}) × S
    updated (ok _, s) = (ok tt, s)
    updated (err e, s) = (err (bytes "failed to update object: " ++ e), s)

    abbrev pub or_update : Object → Creation × S → Result (Unit {0}) × S
    or_update obj (created, s) = (ok tt, s)
    or_update obj (already_exists, s) = updated (update_object obj s)
    or_update obj (not_created e, s) = (err (bytes "failed to create object: " ++ e), s)

    unfoldable pub apply_object : Object → S → Result (Unit {0}) × S
    apply_object obj s = or_update obj (create_object obj s)

    abbrev pub then_on : (S → Result (Unit {0}) × S) → Result (Unit {0}) × S → Result (Unit {0}) × S
    then_on rest (ok _, s) = rest s
    then_on rest (err e, s) = (err e, s)

    unfoldable pub apply_objects : List Object → S → Result (Unit {0}) × S
    apply_objects [] s = (ok tt, s)
    apply_objects (obj ∷ objs) s = then_on (apply_objects objs) (apply_object obj s)

    abbrev pub apply_decoded : S → Result (List Object) → Result (Unit {0}) × S
    apply_decoded s (err e) = (err e, s)
    apply_decoded s (ok objs) = apply_objects objs s

  abbrev pub with_client :
      Text → S → Result (DynamicClient Object Resource S) → Result (Unit {0}) × S
  with_client manifest s (err e) = (err (bytes "failed to create dynamic client: " ++ e), s)
  with_client manifest s (ok client) = apply_decoded client s (decode_all (chunks manifest))

  abbrev pub with_config : Text → S → Result lib.RestConfig → Result (Unit {0}) × S
  with_config manifest s (err e) = (err e, s)
  with_config manifest s (ok conf) = with_client manifest s (lib.new_for_config conf)

  unfoldable pub apply : Text → Text → S → Result (Unit {0}) × S
  apply raw_config manifest s = with_config manifest s (lib.rest_config raw_config)
