-- ===== src/Tests/Cluster.antt =====
-- A cluster as an association list of names and objects, and two manifests.
use treenq.Base.{
  List, [], ◌∷◌, Text, bytes, lookup, Option, none, some, Result, ok, err, All, ◌≡◌, refl, sym, ap,
  arith,
}
use treenq.Go.{split_text}
use treenq.Services.Kube.{
  Creation, created, already_exists, DynamicClient, KubeLibrary, chunks, decode_all, apply,
  apply_objects, apply_object,
}
use treenq.Services.Kube.Applied.{Decodes, IsStore, declared_by, apply_undecodable, apply-declared}

abbrev Cluster : Type 0
Cluster = List (Text × Text)

-- An object is a text, named by its first byte.
abbrev name_of : Text → Text
name_of [] = []
name_of (c ∷ s) = c ∷ []

abbrev declared : Text → Cluster → Option Text
declared n s = lookup n s

abbrev create_where : Option Text → Text → Cluster → Creation × Cluster
create_where none obj s = (created, (name_of obj, obj) ∷ s)
create_where (some _) obj s = (already_exists, s)

abbrev client : DynamicClient Text (Unit {0}) Cluster
client = record {
  create = λ gvr ns obj s. create_where (lookup (name_of obj) s) obj s;
  update = λ gvr ns obj s. (ok tt, (name_of obj, obj) ∷ s);
}

abbrev decode_text : Text → Result Text
decode_text [] = err (bytes "EOF")
decode_text (c ∷ s) = ok (c ∷ s)

abbrev library : KubeLibrary Text (Unit {0}) Cluster
library = record {
  RestConfig = Unit {0};
  rest_config = λ raw. ok tt;
  new_for_config = λ conf. ok client;
  decode = decode_text;
  guess_resource = λ obj. tt;
  get_namespace = λ obj. [];
}

create_where-created :
    (o : Option Text) (obj : Text) (s s' : Cluster)
    → create_where o obj s ≡ (created, s')
    → s' ≡ (name_of obj, obj) ∷ s
create_where-created none obj s s' e = ground arith
create_where-created (some _) obj s s' e = ground arith

create_where-already_exists :
    (o : Option Text) (obj : Text) (s s' : Cluster)
    → create_where o obj s ≡ (already_exists, s')
    → s' ≡ s
create_where-already_exists none obj s s' e = ground arith
create_where-already_exists (some _) obj s s' e = ground arith

store : IsStore library client name_of declared
store = record {
  created-declared =
      λ obj s s' n e. rw (create_where-created (lookup (name_of obj) s) obj s s' e) refl;
  already_exists-declared =
      λ obj s s' n e. rw (create_where-already_exists (lookup (name_of obj) s) obj s s' e) refl;
  updated-declared = λ obj s s' n e. rw (sym (ap (λ p. p.1) e)) refl;
}

abbrev before : Cluster
before = (bytes "n", bytes "n1") ∷ []

abbrev manifest : Text
manifest = bytes "n2---d1---n3"

applied :
    apply library [] manifest before
    ≡ (ok tt, (bytes "n", bytes "n3") ∷ (bytes "d", bytes "d1") ∷ (bytes "n", bytes "n2") ∷ before)
unfolding apply apply_objects apply_object decode_all split_text
applied = refl

apply-declared_example :
    (objs : List Text) × (decode_all library (chunks library manifest) ≡ ok objs)
    × ((n : Text)
        → declared n
            ((bytes "n", bytes "n3") ∷ (bytes "d", bytes "d1") ∷ (bytes "n", bytes "n2") ∷ before)
          ≡ declared_by library name_of n objs (declared n before))
apply-declared_example =
    apply-declared library [] manifest before
      ((bytes "n", bytes "n3") ∷ (bytes "d", bytes "d1") ∷ (bytes "n", bytes "n2") ∷ before) name_of
      declared tt client refl refl store applied

-- The chunk behind the last separator is empty.
abbrev cut_off : Text
cut_off = bytes "n2---d1---"

cut_off-undecodable : ¬ (All (Decodes library) (chunks library cut_off))
unfolding split_text
cut_off-undecodable h = let no = h.1.1.0.1 in ground arith

apply_undecodable_example : (e : Text) × (apply library [] cut_off before ≡ (err e, before))
apply_undecodable_example = apply_undecodable library [] cut_off before cut_off-undecodable
