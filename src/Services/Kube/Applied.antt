-- ===== src/Services/Kube/Applied.antt =====
-- What `Apply` leaves in the cluster.
use treenq.Base.{
  List, [], ◌∷◌, ◌++◌, Text, bytes, ok, err, Result-cases, Reply-cases, All, Option, some, text_eq,
  if◌then◌else◌, ◌≡◌, inl, inr, refl, sym, ap, arith,
}
use treenq.Services.Kube.{
  or_update, Creation, created, already_exists, not_created, DynamicClient, KubeLibrary, chunks,
  decode_all, create_object, update_object, apply_object, apply_objects, apply,
}

module _ {Object Resource S : Type 0} (lib : KubeLibrary Object Resource S) where
  abbrev pub Decodes : Text → Type 0
  Decodes chunk = (obj : Object) × (lib.decode chunk ≡ ok obj)

  decode_all-Decodes :
      (texts : List Text) {objs : List Object} → decode_all lib texts ≡ ok objs → All Decodes texts
  unfolding decode_all
  decode_all-Decodes [] e = tt
  decode_all-Decodes (chunk ∷ rest) e = elim (Result-cases (lib.decode chunk)) [
    | inl (obj, read) ↦ elim (Result-cases (decode_all lib rest)) [
      | inl (objs, more) ↦ ((obj, read), decode_all-Decodes rest more)
      | inr (m, bad) ↦ ground arith
    ]
    | inr (m, bad) ↦ ground arith
  ]

  -- Where a chunk of the manifest is no object, nothing at all is applied: the error is returned
  -- and the state stays as it was, whatever stands in the other chunks.
  pub apply_undecodable :
      (raw_config manifest : Text) (s : S)
      → ¬ (All Decodes (chunks lib manifest))
      → (e : Text) × (apply lib raw_config manifest s ≡ (err e, s))
  unfolding apply
  apply_undecodable raw_config manifest s broken =
      elim (Result-cases (lib.rest_config raw_config)) [
        | inr (e, bad) ↦ (e, rw bad refl)
        | inl (conf, good) ↦ elim (Result-cases (lib.new_for_config conf)) [
          | inr (e, bad) ↦ (bytes "failed to create dynamic client: " ++ e, rw (good, bad) refl)
          | inl (client, made) ↦ elim (Result-cases (decode_all lib (chunks lib manifest))) [
            | inr (e, bad) ↦ (e, rw (good, made, bad) refl)
            | inl (objs, decoded) ↦
                absurd (broken (decode_all-Decodes (chunks lib manifest) decoded))
          ]
        ]
      ]

  -- The cluster as a store: `name` tells its objects apart, by resource, namespace and name, and
  -- `declared` is what was last sent for a name.
  pub record IsStore (client : DynamicClient Object Resource S) (name : Object → Text)
      (declared : Text → S → Option Object) : Type 0 where
    pub created-declared :
        (obj : Object) (s s' : S) (n : Text)
        → create_object lib client obj s ≡ (created, s')
        → declared n s' ≡ (if text_eq (name obj) n then some obj else declared n s)
    pub already_exists-declared :
        (obj : Object) (s s' : S) (n : Text)
        → create_object lib client obj s ≡ (already_exists, s')
        → declared n s' ≡ declared n s
    pub updated-declared :
        (obj : Object) (s s' : S) (n : Text)
        → update_object lib client obj s ≡ (ok tt, s')
        → declared n s' ≡ (if text_eq (name obj) n then some obj else declared n s)

  -- The last object of the list that has the name, or else what was there before.
  abbrev pub declared_by : (Object → Text) → Text → List Object → Option Object → Option Object
  declared_by name n [] before = before
  declared_by name n (obj ∷ objs) before =
      declared_by name n objs (if text_eq (name obj) n then some obj else before)

  module _ (client : DynamicClient Object Resource S) (name : Object → Text)
      (declared : Text → S → Option Object) (store : IsStore client name declared) where
    or_update-declared :
        (obj : Object) (s s₁ s' : S) (n : Text) (c : Creation)
        → create_object lib client obj s ≡ (c, s₁)
        → or_update lib client obj (c, s₁) ≡ (ok tt, s')
        → declared n s' ≡ (if text_eq (name obj) n then some obj else declared n s)
    or_update-declared obj s s₁ s' n created made e = store.created-declared obj s s' n (cc)
    or_update-declared obj s s₁ s' n already_exists there e =
        elim (Reply-cases (update_object lib client obj s₁)) [
          | inl (_, s₂, sent) ↦
              let same : s₂ ≡ s' = (let p = rw sent at e in ap (λ q. q.1) p) in
              rw (sym same, sym (store.already_exists-declared obj s s₁ n there))
                (store.updated-declared obj s₁ s₂ n sent)
          | inr (m, s₂, sent) ↦ let bad = rw sent at e in ground arith
        ]
    or_update-declared obj s s₁ s' n (not_created m) made e = ground arith

    apply_object-declared :
        (obj : Object) (s s' : S) (n : Text)
        → apply_object lib client obj s ≡ (ok tt, s')
        → declared n s' ≡ (if text_eq (name obj) n then some obj else declared n s)
    unfolding apply_object
    apply_object-declared obj s s' n e =
        or_update-declared obj s _ s' n (create_object lib client obj s).0 refl e

    apply_objects-declared :
        (objs : List Object) (s s' : S) (n : Text)
        → apply_objects lib client objs s ≡ (ok tt, s')
        → declared n s' ≡ declared_by name n objs (declared n s)
    unfolding apply_objects
    apply_objects-declared [] s s' n e = ap (λ p. declared n p.1) (sym e)
    apply_objects-declared (obj ∷ objs) s s' n e =
        elim (Reply-cases (apply_object lib client obj s)) [
          | inl (_, s₁, first) ↦
              let more : apply_objects lib client objs s₁ ≡ (ok tt, s') = rw first at e in
              rw (sym (apply_object-declared obj s s₁ n first))
                (apply_objects-declared objs s₁ s' n more)
          | inr (m, s₁, first) ↦ let bad = rw first at e in ground arith
        ]

  -- Where the configuration gives a client, and that client's cluster is a store: after a
  -- manifest was applied without an error, its chunks are objects, every name that these declare
  -- has the last object of the manifest under that name, whether this was there before or not,
  -- and every other name has what it had.
  pub apply-declared :
      (raw_config manifest : Text) (s s' : S) (name : Object → Text)
      (declared : Text → S → Option Object) (conf : lib.RestConfig)
      (client : DynamicClient Object Resource S)
      → lib.rest_config raw_config ≡ ok conf
      → lib.new_for_config conf ≡ ok client
      → IsStore client name declared
      → apply lib raw_config manifest s ≡ (ok tt, s')
      → (objs : List Object) × (decode_all lib (chunks lib manifest) ≡ ok objs)
        × ((n : Text) → declared n s' ≡ declared_by name n objs (declared n s))
  unfolding apply
  apply-declared raw_config manifest s s' name declared conf client good made store e =
      elim (Result-cases (decode_all lib (chunks lib manifest))) [
        | inr (m, bad) ↦ let no = rw (good, made, bad) at e in ground arith
        | inl (objs, decoded) ↦ (
          objs,
          decoded,
          λ n.
              apply_objects-declared client name declared store objs s s' n
                (rw (good, made, decoded) at e),
        )
      ]
