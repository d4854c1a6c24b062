-- ===== src/Vel/Gen/Whole.antt =====
-- What the generator declares for all the operations of a client: the types with their fields.
use treenq.Base.{
  ℕ, zero, suc, Bool, true, false, Bool-cases, if◌then◌else◌, List, [], ◌∷◌, ◌++◌, map, Text,
  text_eq, text_eq_iff, Option, none, some, All, All-append, Any, ◌≡◌, ◌≢◌, ◌⊎◌, inl, inr, refl,
  sym, ap, ◌∙◌, subst, arith,
}
use treenq.Vel.Gen.{
  GoType, struct, pointer, slice, dict, other, StructField, Field, DataType, ApiDesc, Meta, Names,
  contains, Found, found, crashed, out_of_fuel, ◌>>=◌, named, field_of, target_of, top_target_of,
  targets, Collected, visit_all, extract_data_type, add_new, with_type, collect_types, capitalize,
  make_api_desc, collect_api, new_client_gen,
}
use treenq.Vel.Gen.Names.{names_of, Distinct, Gives, >>=-Gives, All-mono, Leads, IsClosed}
use treenq.Vel.Gen.Declared.{declared, IsNamed, IsShown, IsComplete, new_client_gen-IsComplete}

itself-Gives : {A : Type 0} (m : Found A) → Gives (λ a. m ≡ found a) m
itself-Gives (found a) = refl
itself-Gives (crashed m) = tt
itself-Gives out_of_fuel = tt

module _ (fields_of : Text → Text → List StructField) where
  -- A struct type as it is declared: its name with all its fields.
  abbrev pub describe : Text → Text → DataType
  describe pkg name = named name (map field_of (fields_of pkg name))

  -- The declaration of a struct type with fields.
  abbrev IsDescription : DataType → Type 0
  IsDescription d =
      (pkg : Text) × (name : Text) × (f : StructField) × (fs : List StructField) × (fields_of pkg
          name
        ≡ f ∷ fs)
      × (d ≡ named name (map field_of (f ∷ fs)))

  abbrev Describes : Collected → Type 0
  Describes (types, names) = All IsDescription types

  visit_all-Describes :
      (visit : GoType → Names → Found Collected)
      → ((t : GoType) (names : Names) → Gives Describes (visit t names))
      → (ts : List GoType) (names : Names) → Gives Describes (visit_all visit ts names)
  visit_all-Describes visit visits [] names = tt
  visit_all-Describes visit visits (t ∷ ts) names =
      >>=-Gives Describes Describes (visit t names) _ (visits t names) λ (first, names₁) h.
        >>=-Gives Describes Describes (visit_all visit ts names₁) _
          (visit_all-Describes visit visits ts names₁)
          λ (rest, names₂) hs. All-append IsDescription first rest h hs

  with_type-Describes :
      (visit : GoType → Names → Found Collected)
      → ((t : GoType) (names : Names) → Gives Describes (visit t names))
      → (pkg name : Text) (fs : List StructField) (names : Names) → fields_of pkg name ≡ fs
      → Gives Describes (with_type fields_of visit names (named name (map field_of fs)))
  with_type-Describes visit visits pkg name [] names e = tt
  with_type-Describes visit visits pkg name (f ∷ fs) names e = go (contains name names)
    where
      fields : List Field
      fields = map field_of (f ∷ fs)

      go :
          (old : Bool)
          → Gives Describes
              (elim (elim old as (λ _. Bool) [ true ↦ false | false ↦ true ])
                as (λ _. Found Collected) [
                  | true ↦
                      visit_all visit (targets target_of fields) (names ++ name ∷ [])
                      >>= λ (types, names'). found (named name fields ∷ types, names')
                  | false ↦ found ([], names)
                ])
      go true = tt
      go false =
          >>=-Gives Describes Describes
            (visit_all visit (targets target_of fields) (names ++ name ∷ [])) _
            (visit_all-Describes visit visits (targets target_of fields) (names ++ name ∷ []))
            λ (sub, names₂) h. ((pkg, name, f, fs, e, refl), h)

  collect_types-Describes :
      (fuel : ℕ) (t : GoType) (names : Names)
      → Gives Describes (collect_types fields_of fuel t names)
  unfolding collect_types
  collect_types-Describes zero t names = tt
  collect_types-Describes (suc fuel) (struct pkg name) names =
      with_type-Describes (collect_types fields_of fuel) (collect_types-Describes fuel) pkg name
        (fields_of pkg name) names refl
  collect_types-Describes (suc fuel) (pointer t) names = tt
  collect_types-Describes (suc fuel) (slice t) names = tt
  collect_types-Describes (suc fuel) (dict k t) names = tt
  collect_types-Describes (suc fuel) (other n p) names = tt

  added-Describes :
      (pkg name : Text) (fs : List StructField) (names : Names)
      → fields_of pkg name ≡ fs
      → Describes (add_new fields_of (named name (map field_of fs)) names)
  added-Describes pkg name [] names e = tt
  added-Describes pkg name (f ∷ fs) names e = go (contains name names)
    where
      go :
          (old : Bool)
          → Describes (
              if elim old as (λ _. Bool) [ true ↦ false | false ↦ true ]
              then (named name (map field_of (f ∷ fs)) ∷ [], names ++ name ∷ [])
              else ([], names))
      go true = tt
      go false = ((pkg, name, f, fs, e, refl), tt)

  add_new-Describes :
      (t : GoType) (d : DataType) (names : Names)
      → extract_data_type fields_of t ≡ found d
      → Describes (add_new fields_of d names)
  add_new-Describes (struct pkg name) d names e =
      let same : describe pkg name ≡ d = cc in
      subst (λ x. Describes (add_new fields_of x names)) same
        (added-Describes pkg name (fields_of pkg name) names refl)
  add_new-Describes (pointer t) d names e = cc
  add_new-Describes (slice t) d names e = cc
  add_new-Describes (dict k t) d names e = cc
  add_new-Describes (other n p) d names e = cc

  -- A description is of the operation's own input and output.
  abbrev pub IsOf : Meta → ApiDesc → Type 0
  IsOf meta desc =
      (extract_data_type fields_of meta.input ≡ found desc.input)
      × (extract_data_type fields_of meta.output ≡ found desc.output)
      × (desc.operation_id ≡ meta.operation_id)

  make_api_desc-IsOf : (meta : Meta) → Gives (IsOf meta) (make_api_desc fields_of meta)
  unfolding make_api_desc
  make_api_desc-IsOf meta =
      >>=-Gives _ (IsOf meta) (extract_data_type fields_of meta.input) _
        (itself-Gives (extract_data_type fields_of meta.input))
        λ input i.
          >>=-Gives _ (IsOf meta) (extract_data_type fields_of meta.output) _
            (itself-Gives (extract_data_type fields_of meta.output))
            λ output o.
              >>=-Gives _ (IsOf meta) (capitalize fields_of meta.operation_id) _
                (itself-Gives (capitalize fields_of meta.operation_id)) λ name _. (i, o, refl)

  collect_api-Describes :
      (fuel : ℕ) (meta : Meta) (desc : ApiDesc) (names : Names)
      → IsOf meta desc
      → Gives Describes (collect_api fields_of fuel desc names)
  unfolding collect_api
  collect_api-Describes fuel meta desc names (i, o, _) =
      let (inputs, names₁) = add_new fields_of desc.input names in
      let (outputs, names₂) = add_new fields_of desc.output names₁ in
      let led =
        targets top_target_of desc.input.fields ++ targets top_target_of desc.output.fields in
      >>=-Gives Describes Describes (visit_all (collect_types fields_of fuel) led names₂) _
        (visit_all-Describes (collect_types fields_of fuel) (collect_types-Describes fuel) led
          names₂)
        λ (types, names₃) h.
          All-append IsDescription inputs (outputs ++ types)
            (add_new-Describes meta.input desc.input names i)
            (All-append IsDescription outputs types
              (add_new-Describes meta.output desc.output names₁ o) h)

  -- The operations and their descriptions, in the same order.
  abbrev Paired : (Meta → ApiDesc → Type 0) → List Meta → List ApiDesc → Type 0
  Paired R [] [] = Unit
  Paired R (m ∷ ms) (d ∷ ds) = R m d × Paired R ms ds
  Paired R [] (_ ∷ _) = ⊥
  Paired R (_ ∷ _) [] = ⊥

  abbrev Described : List Meta → List ApiDesc × Names → Type 0
  Described metas (descs, names) = Paired IsOf metas descs × All IsDescription (declared descs)

  new_client_gen-Described :
      (fuel : ℕ) (metas : List Meta) (names : Names)
      → Gives (Described metas) (new_client_gen fields_of fuel metas names)
  unfolding new_client_gen
  new_client_gen-Described fuel [] names = (tt, tt)
  new_client_gen-Described fuel (meta ∷ metas) names =
      >>=-Gives (IsOf meta) _ (make_api_desc fields_of meta) _ (make_api_desc-IsOf meta) λ desc of.
        >>=-Gives Describes _ (collect_api fields_of fuel desc names) _
          (collect_api-Describes fuel meta desc names of)
          λ (types, names₁) h.
            >>=-Gives (Described metas) _ (new_client_gen fields_of fuel metas names₁) _
              (new_client_gen-Described fuel metas names₁)
              λ (descs, names₂) (paired, hs).
                ((of, paired), All-append IsDescription types (declared descs) h hs)

  -- Struct types with fields and of one name have the same fields.
  abbrev pub SameNamed : Type 0
  SameNamed =
      (pkg pkg' name : Text)
      → fields_of pkg name ≢ []
      → fields_of pkg' name ≢ []
      → fields_of pkg name ≡ fields_of pkg' name

  -- A struct that has fields is declared, with all of them.
  abbrev pub Declares : List DataType → Option GoType → Type 0
  Declares types (some (struct pkg name)) =
      (fields_of pkg name ≡ []) ⊎ Any (λ d. d ≡ describe pkg name) types
  Declares types _ = Unit

  -- So is what a type's fields lead to.
  abbrev pub IsBacked : List DataType → DataType → Type 0
  IsBacked types d = All (λ f. Declares types (top_target_of f.kind)) d.fields

  -- An input or an output is declared as it is, or has no fields.
  abbrev pub IsUsable : List DataType → DataType → Type 0
  IsUsable types d = ((d.fields ≡ []) ⊎ Any (λ e. e ≡ d) types) × IsBacked types d

  -- All that a client of the operation has to declare.
  abbrev pub IsWhole : List DataType → Meta → ApiDesc → Type 0
  IsWhole types meta desc =
      IsOf meta desc
      × IsUsable types desc.input
      × IsUsable types desc.output
      × All (IsBacked types) desc.data_types

  abbrev pub AllWhole : List DataType → List Meta → List ApiDesc → Type 0
  AllWhole types metas descs = Paired (IsWhole types) metas descs

  module _ (same : SameNamed) where
    find :
        (pkg name : Text) (types : List DataType)
        → fields_of pkg name ≢ []
        → All IsDescription types
        → contains name (names_of types) ≡ true
        → Any (λ d. d ≡ describe pkg name) types
    find pkg name [] some_of h there = absurd (ground arith)
    find pkg name (d ∷ types) some_of ((pkg', name', f, fs, e, is), hs) there =
        elim (Bool-cases (text_eq d.name name)) [
          | inl here ↦
              let called : name' ≡ name =
                sym (ap (λ x. x.name) is) ∙ (text_eq_iff d.name name).0 here in
              let fields : fields_of pkg' name ≡ f ∷ fs =
                subst (λ n. fields_of pkg' n ≡ f ∷ fs) called e in
              let some' : fields_of pkg' name ≢ [] = λ none_of. ground arith in
              inl (
                is
                ∙ (ap (λ n. named n (map field_of (f ∷ fs))) called
                    ∙ ap (λ x. named name (map field_of x))
                        (sym fields ∙ same pkg' pkg name some' some_of)))
          | inr elsewhere ↦ inr (find pkg name types some_of hs (ground arith))
        ]

    module _ (types : List DataType) (all : All IsDescription types) where
      Leads-Declares : (o : Option GoType) → Leads fields_of (names_of types) o → Declares types o
      Leads-Declares none h = tt
      Leads-Declares (some (struct pkg name)) (inl none_of) = inl none_of
      Leads-Declares (some (struct pkg name)) (inr there) = go (fields_of pkg name) refl
        where
          go :
              (fs : List StructField)
              → fields_of pkg name ≡ fs
              → (fields_of pkg name ≡ []) ⊎ Any (λ d. d ≡ describe pkg name) types
          go [] e = inl e
          go (f ∷ fs) e = inr (find pkg name types (λ none_of. ground arith) all there)
      Leads-Declares (some (pointer t)) h = tt
      Leads-Declares (some (slice t)) h = tt
      Leads-Declares (some (dict k t)) h = tt
      Leads-Declares (some (other n p)) h = tt

      IsClosed-IsBacked : (d : DataType) → IsClosed fields_of (names_of types) d → IsBacked types d
      IsClosed-IsBacked d =
          All-mono fields_of _ _ d.fields (λ f. Leads-Declares (top_target_of f.kind))

      named-IsUsable :
          (pkg name : Text)
          → IsNamed (names_of types) (describe pkg name)
          → (fs : List StructField) → fields_of pkg name ≡ fs
          → ((describe pkg name).fields ≡ []) ⊎ Any (λ e. e ≡ describe pkg name) types
      named-IsUsable pkg name h [] e = inl (ap (λ x. (named name (map field_of x)).fields) e)
      named-IsUsable pkg name (inl none_of) (f ∷ fs) e = inl none_of
      named-IsUsable pkg name (inr there) (f ∷ fs) e = inr (
          find pkg name types (λ none_of. ground arith) all
            (subst (λ n. contains n (names_of types) ≡ true)
              (ap (λ x. (named name (map field_of x)).name) e) there))

      IsShown-IsUsable :
          (t : GoType) (d : DataType)
          → extract_data_type fields_of t ≡ found d
          → IsShown fields_of (names_of types) d
          → IsUsable types d
      IsShown-IsUsable (struct pkg name) d e (n, c) =
          let is : describe pkg name ≡ d = cc in
          (
            subst (λ x. (x.fields ≡ []) ⊎ Any (λ y. y ≡ x) types) is
                (named-IsUsable pkg name (subst (IsNamed (names_of types)) (sym is) n)
                  (fields_of pkg name) refl),
            IsClosed-IsBacked d c,
          )
      IsShown-IsUsable (pointer t) d e h = cc
      IsShown-IsUsable (slice t) d e h = cc
      IsShown-IsUsable (dict k t) d e h = cc
      IsShown-IsUsable (other n p) d e h = cc

      AllWhole-IsComplete :
          (metas : List Meta) (descs : List ApiDesc)
          → Paired IsOf metas descs
          → All (IsComplete fields_of (names_of types)) descs
          → AllWhole types metas descs
      AllWhole-IsComplete [] [] paired h = tt
      AllWhole-IsComplete [] (d ∷ ds) paired h = absurd paired
      AllWhole-IsComplete (m ∷ ms) [] paired h = absurd paired
      AllWhole-IsComplete (m ∷ ms) (d ∷ ds) ((of_in, of_out, id), paired) ((i, o, closed), hs) = (
        (
          (of_in, of_out, id),
          IsShown-IsUsable m.input d.input of_in i,
          IsShown-IsUsable m.output d.output of_out o,
          All-mono fields_of _ _ d.data_types IsClosed-IsBacked closed,
        ),
        AllWhole-IsComplete ms ds paired hs,
      )

-- Where struct types with fields and of one name have the same fields, the generator describes each
-- operation with its own input and output, declares no two types of one name for a client, and
-- declares with all their fields: the inputs and outputs that have fields, and the structs with
-- fields that the fields of these and of the declared types lead to, through a slice or a map and
-- then a pointer.
pub new_client_gen-AllWhole :
    (fields_of : Text → Text → List StructField) (fuel : ℕ) (metas : List Meta)
    (descs : List ApiDesc) (names : Names)
    → SameNamed fields_of
    → new_client_gen fields_of fuel metas [] ≡ found (descs, names)
    → Distinct (names_of (declared descs)) × AllWhole fields_of (declared descs) metas descs
new_client_gen-AllWhole fields_of fuel metas descs names same e =
    let (distinct, complete) = new_client_gen-IsComplete fields_of fuel metas descs names e in
    let (paired, all) =
      subst (Gives (Described fields_of metas)) e
        (new_client_gen-Described fields_of fuel metas []) in
    (distinct, AllWhole-IsComplete fields_of same (declared descs) all metas descs paired complete)
