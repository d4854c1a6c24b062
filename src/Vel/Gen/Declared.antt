-- ===== src/Vel/Gen/Declared.antt =====
-- What the generator declares for all the operations of a client.
use treenq.Base.{
  ℕ, true, false, Bool, if◌then◌else◌, List, [], ◌∷◌, ◌++◌, append-nil, Text, All, All-append, ◌≡◌,
  ◌⊎◌, inl, inr, refl, sym, subst, arith, text_eq_refl,
}
use treenq.Vel.Gen.{
  StructField, Field, DataType, ApiDesc, Meta, Names, contains, Found, found, crashed, out_of_fuel,
  top_target_of, targets, Collected, visit_all, add_new, collect_types, make_api_desc, collect_api,
  new_client_gen,
}
use treenq.Vel.Gen.Names.{
  names_of, Distinct, contains-append, contains_left, Distinct-snoc, appended_behind, Gives,
  >>=-Gives, IsDeclared, IsClosed, IsClosed-append, Collects, VisitedAll, visit_all-Collects,
  targets-Leads, collect_types-Visits,
}

All-split {ℓ κ} :
    {A : Type ℓ} (P : A → Type κ) (xs ys : List A) → All P (xs ++ ys) → All P xs × All P ys
All-split P [] ys h = (tt, h)
All-split P (x ∷ xs) ys (p, h) = let (ps, qs) = All-split P xs ys h in ((p, ps), qs)

any-Gives : {A : Type 0} (m : Found A) → Gives (λ _. Unit {0}) m
any-Gives (found a) = tt
any-Gives (crashed m) = tt
any-Gives out_of_fuel = tt

-- All the types that a client declares.
abbrev pub declared : List ApiDesc → List DataType
declared [] = []
declared (d ∷ ds) = d.data_types ++ declared ds

-- A type without fields is written in place.
abbrev pub IsNamed : Names → DataType → Type 0
IsNamed names d = (d.fields ≡ []) ⊎ (contains d.name names ≡ true)

IsNamed-append : (d : DataType) (ms ns : Names) → IsNamed ms d → IsNamed (ms ++ ns) d
IsNamed-append d ms ns (inl none_of) = inl none_of
IsNamed-append d ms ns (inr h) = inr (contains_left d.name ms ns h)

module _ (fields_of : Text → Text → List StructField) where
  -- What adding an input or an output owes: it is named behind it, and closed when the type is.
  record Adds (names : Names) (d : DataType) (added : Collected) : Type 0 where
    appended : added.1 ≡ names ++ names_of added.0
    distinct : Distinct names → Distinct added.1
    named : IsNamed added.1 d
    closed : (ns : Names) → IsClosed fields_of ns d → All (IsClosed fields_of ns) added.0

  add_new-Adds : (d : DataType) (names : Names) → Adds names d (add_new fields_of d names)
  add_new-Adds d names = go d.fields (contains d.name names) refl refl
    where
      skipped : IsNamed names d → Adds names d ([], names)
      skipped there = record {
        appended = sym (append-nil names);
        distinct = λ h. h;
        named = there;
        closed = λ ns c. tt;
      }

      go :
          (fs : List Field) (old : Bool)
          → d.fields ≡ fs
          → contains d.name names ≡ old
          → Adds names d (
              if elim fs as (λ _. Bool) [
                | [] ↦ false
                | _ ∷ _ ↦ elim old as (λ _. Bool) [ true ↦ false | false ↦ true ]
              ]
              then (d ∷ [], names ++ d.name ∷ [])
              else ([], names))
      go [] old none_of e = skipped (inl none_of)
      go (f ∷ fs) true some_of old = skipped (inr old)
      go (f ∷ fs) false some_of fresh = record {
        appended = refl;
        distinct = Distinct-snoc d.name names fresh;
        named =
            inr (ground (arith, contains-append d.name names (d.name ∷ []), text_eq_refl d.name));
        closed = λ ns c. (c, tt);
      }

  -- An input or an output that a client can be written for.
  abbrev pub IsShown : Names → DataType → Type 0
  IsShown names d = IsNamed names d × IsClosed fields_of names d

  abbrev CollectsApi : ApiDesc → Names → Collected → Type 0
  CollectsApi desc names (types, names') =
      Collects fields_of names types names' × IsShown names' desc.input × IsShown names' desc.output

  collect_api-Collects :
      (fuel : ℕ) (desc : ApiDesc) (names : Names)
      → Gives (CollectsApi desc names) (collect_api fields_of fuel desc names)
  unfolding collect_api
  collect_api-Collects fuel desc names =
      let (inputs, names₁) = add_new fields_of desc.input names in
      let (outputs, names₂) = add_new fields_of desc.output names₁ in
      let added : Adds names desc.input (inputs, names₁) = add_new-Adds desc.input names in
      let added' : Adds names₁ desc.output (outputs, names₂) = add_new-Adds desc.output names₁ in
      let ins = targets top_target_of desc.input.fields in
      let outs = targets top_target_of desc.output.fields in
      >>=-Gives (VisitedAll fields_of (ins ++ outs) names₂) _
        (visit_all (collect_types fields_of fuel) (ins ++ outs) names₂) _
        (visit_all-Collects fields_of (collect_types fields_of fuel)
          (collect_types-Visits fields_of fuel) (ins ++ outs) names₂)
        λ (types, names₃) (c, ds).
          let after : names₃ ≡ names₁ ++ names_of (outputs ++ types) =
            appended_behind names₁ names₂ names₃ outputs types added'.appended c.appended in
          let (din, dout) = All-split (IsDeclared fields_of names₃) ins outs ds in
          let closed_in : IsClosed fields_of names₃ desc.input =
            targets-Leads fields_of names₃ top_target_of desc.input.fields din in
          let closed_out : IsClosed fields_of names₃ desc.output =
            targets-Leads fields_of names₃ top_target_of desc.output.fields dout in
          (
            record {
              appended =
                  appended_behind names names₁ names₃ inputs (outputs ++ types) added.appended
                    after;
              distinct = λ h. c.distinct (added'.distinct (added.distinct h));
              closed =
                  All-append (IsClosed fields_of names₃) inputs (outputs ++ types)
                    (added.closed names₃ closed_in)
                    (All-append (IsClosed fields_of names₃) outputs types
                      (added'.closed names₃ closed_out) c.closed);
            },
            (
              subst (λ ns. IsNamed ns desc.input) (sym after)
                  (IsNamed-append desc.input names₁ (names_of (outputs ++ types)) added.named),
              closed_in,
            ),
            (
              subst (λ ns. IsNamed ns desc.output) (sym c.appended)
                  (IsNamed-append desc.output names₂ (names_of types) added'.named),
              closed_out,
            ),
          )

  -- An operation that a client can be written for: its input and output, and what it declares.
  abbrev pub IsComplete : Names → ApiDesc → Type 0
  IsComplete names desc =
      IsShown names desc.input
      × IsShown names desc.output
      × All (IsClosed fields_of names) desc.data_types

  abbrev CollectsAll : Names → List ApiDesc × Names → Type 0
  CollectsAll names (descs, names') =
      (names' ≡ names ++ names_of (declared descs))
      × (Distinct names → Distinct names')
      × All (IsComplete names') descs

  IsShown-append : (d : DataType) (ms ns : Names) → IsShown ms d → IsShown (ms ++ ns) d
  IsShown-append d ms ns (n, c) =
      (IsNamed-append d ms ns n, (IsClosed-append fields_of ms ns (d ∷ []) (c, tt)).0)

  new_client_gen-Collects :
      (fuel : ℕ) (metas : List Meta) (names : Names)
      → Gives (CollectsAll names) (new_client_gen fields_of fuel metas names)
  unfolding new_client_gen
  new_client_gen-Collects fuel [] names = (sym (append-nil names), λ h. h, tt)
  new_client_gen-Collects fuel (meta ∷ metas) names =
      >>=-Gives (λ _. Unit {0}) _ (make_api_desc fields_of meta) _ (any-Gives _)
        λ desc _.
          >>=-Gives (CollectsApi desc names) _ (collect_api fields_of fuel desc names) _
            (collect_api-Collects fuel desc names)
            λ (types, names₁) (c, shown_in, shown_out).
              >>=-Gives (CollectsAll names₁) _ (new_client_gen fields_of fuel metas names₁) _
                (new_client_gen-Collects fuel metas names₁)
                λ (descs, names₂) (after, distinct, complete). (
                  appended_behind names names₁ names₂ types (declared descs) c.appended after,
                  λ h. distinct (c.distinct h),
                  (
                    (
                      subst (λ ns. IsShown ns desc.input) (sym after)
                          (IsShown-append desc.input names₁ (names_of (declared descs)) shown_in),
                      subst (λ ns. IsShown ns desc.output) (sym after)
                          (IsShown-append desc.output names₁ (names_of (declared descs)) shown_out),
                      subst (λ ns. All (IsClosed fields_of ns) types) (sym after)
                          (IsClosed-append fields_of names₁ (names_of (declared descs)) types
                            c.closed),
                    ),
                    complete,
                  ),
                )

-- The generator declares no two types of one name for a client, and all that it has to declare:
-- the types that have fields among the inputs and outputs of its operations, and the structs with
-- fields that the fields of these and of the declared types lead to, through a slice or a map and
-- a pointer, are declared under their name by one of the operations.
pub new_client_gen-IsComplete :
    (fields_of : Text → Text → List StructField) (fuel : ℕ) (metas : List Meta)
    (descs : List ApiDesc) (names : Names)
    → new_client_gen fields_of fuel metas [] ≡ found (descs, names)
    → Distinct (names_of (declared descs))
      × All (IsComplete fields_of (names_of (declared descs))) descs
new_client_gen-IsComplete fields_of fuel metas descs names e =
    let (same, distinct, complete) =
      subst (Gives (CollectsAll fields_of [])) e
        (new_client_gen-Collects fields_of fuel metas []) in
    (
      subst Distinct same (distinct tt),
      subst (λ ns. All (IsComplete fields_of ns) descs) same complete,
    )
