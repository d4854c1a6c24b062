-- ===== src/Vel/Gen/Ends.antt =====
-- The generator's recursion over struct types ends: every call that goes on has put a name that was
-- not yet there behind the names, and the program has finitely many struct types with fields.
use treenq.Base.{
  ℕ, zero, suc, ◌≤◌, ◌<◌, length, Bool, Bool-cases, inl, inr, text_eq, true, false, if◌then◌else◌,
  List, [], ◌∷◌, ◌++◌, map, All, All-append, Text, Option, none, some, ◌≡◌, ◌≢◌, refl, sym, arith,
  text_eq_iff,
}
use treenq.Vel.Gen.{
  GoType, struct, pointer, slice, dict, other, StructField, Field, ApiDesc, Meta, Names, contains,
  Found, found, crashed, out_of_fuel, ◌>>=◌, behind, struct_of, target_of, top_target_of, unwrapped,
  cons_target, targets, Collected, visit_all, add_new, with_type, collect_types, make_api_desc,
  collect_api, new_client_gen, field_of, named,
}
use treenq.Vel.Gen.Names.{contains-append, text_eq_comm}

-- A computation that ends with a value, and what the value satisfies.
abbrev pub EndsIn : {A : Type 0} → (A → Type 0) → Found A → Type 0
EndsIn P (found a) = P a
EndsIn P (crashed m) = ⊥
EndsIn P out_of_fuel = ⊥

>>=-EndsIn :
    {A B : Type 0} (P : A → Type 0) (Q : B → Type 0) (m : Found A) (f : A → Found B)
    → EndsIn P m
    → ((a : A) → P a → EndsIn Q (f a))
    → EndsIn Q (m >>= f)
>>=-EndsIn P Q (found a) f h next = next a h
>>=-EndsIn P Q (crashed m) f h next = absurd h
>>=-EndsIn P Q out_of_fuel f h next = absurd h

abbrev pub IsStruct : GoType → Type 0
IsStruct (struct pkg name) = Unit
IsStruct _ = ⊥

-- The input and the output of a handler are structs, and its operation has a name.
abbrev pub IsGenerable : Meta → Type 0
IsGenerable meta = IsStruct meta.input × IsStruct meta.output × (meta.operation_id ≢ [])

-- How many of the names are not yet there.
unseen : Names → Names → ℕ
unseen [] names = 0
unseen (u ∷ us) names = if contains u names then unseen us names else suc (unseen us names)

unseen-append : (us names more : Names) → unseen us (names ++ more) ≤ unseen us names
unfolding unseen
unseen-append [] names more = omega arith
unseen-append (u ∷ us) names more =
    ground (arith, contains-append u names more, unseen-append us names more)

unseen-length : (us names : Names) → unseen us names ≤ length us
unfolding unseen
unseen-length [] names = omega arith
unseen-length (u ∷ us) names = ground (arith, unseen-length us names)

unseen-snoc :
    (us : Names) (n : Text) (names : Names)
    → contains n us ≡ true
    → contains n names ≡ false
    → unseen us (names ++ n ∷ []) < unseen us names
unfolding unseen
unseen-snoc [] n names h fresh = ground arith
unseen-snoc (u ∷ us) n names h fresh = elim (Bool-cases (text_eq u n)) [
  | inl same ↦
      let u≡n = (text_eq_iff u n).0 same in
      let known : contains u names ≡ false = rw u≡n fresh in
      ground (
        arith,
        contains-append u names (n ∷ []),
        text_eq_iff n u,
        unseen-append us names (n ∷ []),
        known,
        sym u≡n,
      )
  | inr differ ↦ ground (
    arith,
    contains-append u names (n ∷ []),
    unseen-snoc us n names (ground arith) fresh,
    text_eq_comm u n,
    differ,
  )
]

abbrev IsStructOf : Option GoType → Type 0
IsStructOf none = Unit
IsStructOf (some t) = IsStruct t

struct_of-IsStructOf : (t : GoType) → IsStructOf (struct_of t)
struct_of-IsStructOf (struct pkg name) = tt
struct_of-IsStructOf (pointer t) = tt
struct_of-IsStructOf (slice t) = tt
struct_of-IsStructOf (dict k t) = tt
struct_of-IsStructOf (other n p) = tt

behind-IsStructOf : (t : GoType) → IsStructOf (behind t)
behind-IsStructOf (struct pkg name) = tt
behind-IsStructOf (pointer t) = struct_of-IsStructOf t
behind-IsStructOf (slice t) = tt
behind-IsStructOf (dict k t) = tt
behind-IsStructOf (other n p) = tt

target_of-IsStructOf : (t : GoType) → IsStructOf (target_of t)
target_of-IsStructOf (struct pkg name) = tt
target_of-IsStructOf (pointer t) = behind-IsStructOf t
target_of-IsStructOf (slice t) = behind-IsStructOf t
target_of-IsStructOf (dict k t) = behind-IsStructOf t
target_of-IsStructOf (other n p) = tt

cons_target-IsStruct :
    (o : Option GoType) (ts : List GoType)
    → IsStructOf o
    → All IsStruct ts
    → All IsStruct (cons_target o ts)
cons_target-IsStruct none ts _ rest = rest
cons_target-IsStruct (some t) ts is_struct rest = (is_struct, rest)

targets-IsStruct :
    (follow : GoType → Option GoType) (fs : List Field)
    → ((t : GoType) → IsStructOf (follow t))
    → All IsStruct (targets follow fs)
unfolding targets
targets-IsStruct follow [] h = tt
targets-IsStruct follow (f ∷ fs) h =
    cons_target-IsStruct (follow f.kind) (targets follow fs) (h f.kind)
      (targets-IsStruct follow fs h)

-- The names of the types with fields are among `us`.
module _ (fields_of : Text → Text → List StructField) (us : Names)
    (finite : (pkg name : Text) → fields_of pkg name ≢ [] → contains name us ≡ true) where
  -- No name is lost.
  abbrev Keeps : Names → Collected → Type 0
  Keeps names (types, names') = unseen us names' ≤ unseen us names

  abbrev Visits : ℕ → (GoType → Names → Found Collected) → Type 0
  Visits n visit =
      (t : GoType) (names : Names)
      → IsStruct t
      → unseen us names < n
      → EndsIn (Keeps names) (visit t names)

  visit_all-EndsIn :
      (n : ℕ) (visit : GoType → Names → Found Collected)
      → Visits n visit
      → (ts : List GoType) (names : Names) → All IsStruct ts
      → unseen us names < n
      → EndsIn (Keeps names) (visit_all visit ts names)
  visit_all-EndsIn n visit visits [] names structs few = omega arith
  visit_all-EndsIn n visit visits (t ∷ ts) names (is_struct, structs) few =
      >>=-EndsIn (Keeps names) _ (visit t names) _ (visits t names is_struct few)
        λ (first, names₁) kept.
          >>=-EndsIn (Keeps names₁) _ (visit_all visit ts names₁) _
            (visit_all-EndsIn n visit visits ts names₁ structs (omega arith))
            λ (rest, names₂) kept'. omega arith

  with_type-EndsIn :
      (n : ℕ) (visit : GoType → Names → Found Collected)
      → Visits n visit
      → (name : Text) (fs : List StructField) (names : Names) → (fs ≢ [] → contains name us ≡ true)
      → unseen us names < suc n
      → EndsIn (Keeps names) (with_type fields_of visit names (named name (map field_of fs)))
  with_type-EndsIn n visit visits name [] names known few = omega arith
  with_type-EndsIn n visit visits name (f ∷ fs) names known few = go (contains name names) refl
    where
      fields : List Field
      fields = map field_of (f ∷ fs)

      names₁ : Names
      names₁ = names ++ name ∷ []

      go :
          (old : Bool)
          → contains name names ≡ old
          → EndsIn
              (Keeps names)
              (elim (elim old as (λ _. Bool) [ true ↦ false | false ↦ true ])
                as (λ _. Found Collected) [
                  | true ↦ visit_all visit (targets target_of fields) names₁ >>= λ (types, names').
                      found (named name fields ∷ types, names')
                  | false ↦ found ([], names)
                ])
      go true old = omega arith
      go false fresh =
          let fewer = unseen-snoc us name names (known λ none_of. ground arith) fresh in
          >>=-EndsIn (Keeps names₁) _ (visit_all visit (targets target_of fields) names₁) _
            (visit_all-EndsIn n visit visits (targets target_of fields) names₁
              (targets-IsStruct target_of fields target_of-IsStructOf) (omega arith))
            λ (types, names₂) kept. omega arith

  collect_types-EndsIn : (fuel : ℕ) → Visits fuel (collect_types fields_of fuel)
  unfolding collect_types
  collect_types-EndsIn zero t names is_struct few = omega arith
  collect_types-EndsIn (suc fuel) (struct pkg name) names is_struct few =
      with_type-EndsIn fuel (collect_types fields_of fuel) (collect_types-EndsIn fuel) name
        (fields_of pkg name) names (finite pkg name) few
  collect_types-EndsIn (suc fuel) (pointer t) names is_struct few = absurd is_struct
  collect_types-EndsIn (suc fuel) (slice t) names is_struct few = absurd is_struct
  collect_types-EndsIn (suc fuel) (dict k t) names is_struct few = absurd is_struct
  collect_types-EndsIn (suc fuel) (other n p) names is_struct few = absurd is_struct

  collect_api-EndsIn :
      (fuel : ℕ) (desc : ApiDesc) (names : Names)
      → length us < fuel
      → EndsIn (λ _. Unit) (collect_api fields_of fuel desc names)
  unfolding collect_api
  collect_api-EndsIn fuel desc names enough =
      let names₁ = (add_new fields_of desc.input names).1 in
      let names₂ = (add_new fields_of desc.output names₁).1 in
      let ins = targets top_target_of desc.input.fields in
      let outs = targets top_target_of desc.output.fields in
      >>=-EndsIn (Keeps names₂) _ (visit_all (collect_types fields_of fuel) (ins ++ outs) names₂) _
        (visit_all-EndsIn fuel (collect_types fields_of fuel) (collect_types-EndsIn fuel)
          (ins ++ outs) names₂
          (All-append IsStruct ins outs
            (targets-IsStruct top_target_of desc.input.fields λ t. behind-IsStructOf (unwrapped t))
            (targets-IsStruct top_target_of desc.output.fields
              λ t. behind-IsStructOf (unwrapped t)))
          (omega (arith, unseen-length us names₂)))
        λ _ _. tt

  make_api_desc-EndsIn :
      (meta : Meta) → IsGenerable meta → EndsIn (λ _. Unit) (make_api_desc fields_of meta)
  unfolding make_api_desc
  make_api_desc-EndsIn meta (inp, out, op) = go meta.input meta.output meta.operation_id inp out op
    where
      go :
          (i o : GoType) (op : Text)
          → IsStruct i
          → IsStruct o
          → op ≢ []
          → EndsIn
              (λ _. Unit)
              (make_api_desc fields_of (record { input = i; output = o; operation_id = op }))
      go (struct p n) (struct q m) (c ∷ op) _ _ _ = tt
      go (struct p n) (struct q m) [] _ _ some_name = some_name refl
      go (struct p n) (pointer t) op _ h _ = absurd h
      go (struct p n) (slice t) op _ h _ = absurd h
      go (struct p n) (dict k t) op _ h _ = absurd h
      go (struct p n) (other m t) op _ h _ = absurd h
      go (pointer t) o op h _ _ = absurd h
      go (slice t) o op h _ _ = absurd h
      go (dict k t) o op h _ _ = absurd h
      go (other m t) o op h _ _ = absurd h

  new_client_gen-EndsIn :
      (fuel : ℕ) (metas : List Meta) (names : Names)
      → length us < fuel
      → All IsGenerable metas
      → EndsIn (λ _. Unit) (new_client_gen fields_of fuel metas names)
  unfolding new_client_gen
  new_client_gen-EndsIn fuel [] names enough generable = tt
  new_client_gen-EndsIn fuel (meta ∷ metas) names enough (first, rest) =
      >>=-EndsIn (λ _. Unit) _ (make_api_desc fields_of meta) _ (make_api_desc-EndsIn meta first)
        λ desc _.
          >>=-EndsIn (λ _. Unit) _ (collect_api fields_of fuel desc names) _
            (collect_api-EndsIn fuel desc names enough)
            λ (types, names₁) _.
              >>=-EndsIn (λ _. Unit) _ (new_client_gen fields_of fuel metas names₁) _
                (new_client_gen-EndsIn fuel metas names₁ enough rest) λ _ _. tt

EndsIn-found : {A : Type 0} (P : A → Type 0) (m : Found A) → EndsIn P m → (a : A) × (m ≡ found a)
EndsIn-found P (found a) h = (a, refl)
EndsIn-found P (crashed m) h = absurd h
EndsIn-found P out_of_fuel h = absurd h

-- The generator ends with a description of every client: where each operation has a name, a struct
-- as its input and one as its output, and the program's struct types with fields have finitely many
-- names, calls nested one deeper than there are names are enough for any of its types, also for
-- types that lead to themselves.
pub new_client_gen-found :
    (fields_of : Text → Text → List StructField) (us : Names) (fuel : ℕ) (metas : List Meta)
    → ((pkg name : Text) → fields_of pkg name ≢ [] → contains name us ≡ true)
    → length us < fuel
    → All IsGenerable metas
    → (r : List ApiDesc × Names) × (new_client_gen fields_of fuel metas [] ≡ found r)
new_client_gen-found fields_of us fuel metas finite enough generable =
    EndsIn-found _ (new_client_gen fields_of fuel metas [])
      (new_client_gen-EndsIn fields_of us finite fuel metas [] enough generable)
