-- ===== src/Vel/Gen/Names.antt =====
-- What the generator collects: each type once, and all that the fields lead to.
use treenq.Base.{
  ℕ, zero, suc, Bool, true, false, ◌||◌, List, [], ◌∷◌, ◌++◌, append-nil, append_assoc, map, All,
  All-append, Text, text_eq, text_eq_iff, text_eq_refl, Option, none, some, ◌≡◌, ◌⊎◌, inl, inr,
  refl, sym, ap, ◌∙◌, subst, arith,
}
use treenq.Vel.Gen.{
  GoType, struct, pointer, slice, dict, other, StructField, Field, DataType, Names, contains, Found,
  found, crashed, out_of_fuel, ◌>>=◌, named, field_of, target_of, top_target_of, cons_target,
  targets, Collected, visit_all, with_type, collect_types,
}

abbrev pub names_of : List DataType → Names
names_of = map (λ d. d.name)

-- No name stands twice.
abbrev pub Distinct : Names → Type 0
Distinct [] = Unit
Distinct (n ∷ ns) = (contains n ns ≡ false) × Distinct ns

pub contains-append :
    (n : Text) (ms ns : Names) → contains n (ms ++ ns) ≡ (contains n ms || contains n ns)
contains-append n [] ns = refl
contains-append n (m ∷ ms) ns = ground (arith, contains-append n ms ns)

pub contains_left : (n : Text) (ms ns : Names) → contains n ms ≡ true → contains n (ms ++ ns) ≡ true
contains_left n ms ns h = ground (arith, contains-append n ms ns)

pub text_eq_comm : (s t : Text) → text_eq s t ≡ text_eq t s
text_eq_comm s t = ground (arith, text_eq_iff s t, text_eq_iff t s)

pub Distinct-snoc :
    (n : Text) (ns : Names) → contains n ns ≡ false → Distinct ns → Distinct (ns ++ n ∷ [])
Distinct-snoc n [] h d = (refl, tt)
Distinct-snoc n (m ∷ ms) h (d, ds) = (
  ground (arith, contains-append m ms (n ∷ []), text_eq_comm m n),
  Distinct-snoc n ms (ground arith) ds,
)

pub map-append {ℓ κ} :
    {A : Type ℓ} {B : Type κ} (f : A → B) (xs ys : List A) → map f (xs ++ ys) ≡ map f xs ++ map f ys
map-append f [] ys = refl
map-append f (x ∷ xs) ys = ap (λ zs. f x ∷ zs) (map-append f xs ys)

pub appended_behind :
    (names names₁ names₂ : Names) (xs ys : List DataType)
    → names₁ ≡ names ++ names_of xs
    → names₂ ≡ names₁ ++ names_of ys
    → names₂ ≡ names ++ names_of (xs ++ ys)
appended_behind names names₁ names₂ xs ys first rest =
    rest
    ∙ (ap (λ ns. ns ++ names_of ys) first
        ∙ (append_assoc names (names_of xs) (names_of ys)
            ∙ ap (λ ns. names ++ ns) (sym (map-append (λ d. d.name) xs ys))))

-- What a computation's value satisfies, if it ends with one.
abbrev pub Gives {κ} : {A : Type 0} → (A → Type κ) → Found A → Type κ
Gives P (found a) = P a
Gives P (crashed m) = Unit
Gives P out_of_fuel = Unit

pub >>=-Gives {κ κ'} :
    {A B : Type 0} (P : A → Type κ) (Q : B → Type κ') (m : Found A) (f : A → Found B)
    → Gives P m
    → ((a : A) → P a → Gives Q (f a))
    → Gives Q (m >>= f)
>>=-Gives P Q (found a) f h next = next a h
>>=-Gives P Q (crashed m) f h next = tt
>>=-Gives P Q out_of_fuel f h next = tt

module _ (fields_of : Text → Text → List StructField) where
  -- A struct that has fields is among the names.
  abbrev pub IsDeclared : Names → GoType → Type 0
  IsDeclared names (struct pkg name) = (fields_of pkg name ≡ []) ⊎ (contains name names ≡ true)
  IsDeclared names _ = Unit

  abbrev pub Leads : Names → Option GoType → Type 0
  Leads names none = Unit
  Leads names (some t) = IsDeclared names t

  -- What the type's fields lead to is among the names.
  abbrev pub IsClosed : Names → DataType → Type 0
  IsClosed names d = All (λ f. Leads names (top_target_of f.kind)) d.fields

  pub IsDeclared-append : (t : GoType) (ms ns : Names) → IsDeclared ms t → IsDeclared (ms ++ ns) t
  IsDeclared-append (struct pkg name) ms ns (inl none_of) = inl none_of
  IsDeclared-append (struct pkg name) ms ns (inr h) = inr (contains_left name ms ns h)
  IsDeclared-append (pointer t) ms ns h = tt
  IsDeclared-append (slice t) ms ns h = tt
  IsDeclared-append (dict k t) ms ns h = tt
  IsDeclared-append (other n p) ms ns h = tt

  pub Leads-append : (o : Option GoType) (ms ns : Names) → Leads ms o → Leads (ms ++ ns) o
  Leads-append none ms ns h = tt
  Leads-append (some t) ms ns h = IsDeclared-append t ms ns h

  pub All-mono {ℓ κ κ'} :
      {A : Type ℓ} (P : A → Type κ) (Q : A → Type κ') (xs : List A)
      → ((x : A) → P x → Q x)
      → All P xs
      → All Q xs
  All-mono P Q [] f h = tt
  All-mono P Q (x ∷ xs) f (p, h) = (f x p, All-mono P Q xs f h)

  pub IsClosed-append :
      (ms ns : Names) (types : List DataType)
      → All (IsClosed ms) types
      → All (IsClosed (ms ++ ns)) types
  IsClosed-append ms ns types =
      All-mono (IsClosed ms) (IsClosed (ms ++ ns)) types
        λ d. All-mono _ _ d.fields (λ f. Leads-append (top_target_of f.kind) ms ns)

  -- What is owed by a call that collects types: their names are put behind those before, no name
  -- comes twice, and the types' fields lead to names that are there in the end.
  pub record Collects (names : Names) (types : List DataType) (names' : Names) : Type 0 where
    pub appended : names' ≡ names ++ names_of types
    pub distinct : Distinct names → Distinct names'
    pub closed : All (IsClosed names') types

  pub Collects-nil : (names : Names) → Collects names [] names
  Collects-nil names = record { appended = sym (append-nil names); distinct = λ d. d; closed = tt }

  pub Collects-append :
      {names names₁ names₂ : Names} (xs ys : List DataType)
      → Collects names xs names₁
      → Collects names₁ ys names₂
      → Collects names (xs ++ ys) names₂
  Collects-append {names} {names₁} {names₂} xs ys first rest = record {
    appended = appended_behind names names₁ names₂ xs ys first.appended rest.appended;
    distinct = λ d. rest.distinct (first.distinct d);
    closed =
        All-append (IsClosed names₂) xs ys
          (subst (λ ns. All (IsClosed ns) xs) (sym rest.appended)
            (IsClosed-append names₁ (names_of ys) xs first.closed))
          rest.closed;
  }

  -- What a visit owes: this, and the struct that it was sent to.
  abbrev pub Visited : GoType → Names → Collected → Type 0
  Visited t names (types, names') = Collects names types names' × IsDeclared names' t

  abbrev pub Visits : (GoType → Names → Found Collected) → Type 0
  Visits visit = (t : GoType) (names : Names) → Gives (Visited t names) (visit t names)

  abbrev pub VisitedAll : List GoType → Names → Collected → Type 0
  VisitedAll ts names (types, names') = Collects names types names' × All (IsDeclared names') ts

  pub visit_all-Collects :
      (visit : GoType → Names → Found Collected)
      → Visits visit
      → (ts : List GoType) (names : Names) → Gives (VisitedAll ts names) (visit_all visit ts names)
  visit_all-Collects visit visits [] names = (Collects-nil names, tt)
  visit_all-Collects visit visits (t ∷ ts) names =
      >>=-Gives (Visited t names) _ (visit t names) _ (visits t names) λ (first, names₁) (c₁, d).
        >>=-Gives (VisitedAll ts names₁) _ (visit_all visit ts names₁) _
          (visit_all-Collects visit visits ts names₁)
          λ (rest, names₂) (c₂, ds). (
            Collects-append first rest c₁ c₂,
            (
              subst (λ ns. IsDeclared ns t) (sym c₂.appended)
                  (IsDeclared-append t names₁ (names_of rest) d),
              ds,
            ),
          )

  cons_target-Leads :
      (ns : Names) (o : Option GoType) (ts : List GoType)
      → All (IsDeclared ns) (cons_target o ts)
      → Leads ns o × All (IsDeclared ns) ts
  cons_target-Leads ns none ts h = (tt, h)
  cons_target-Leads ns (some t) ts (d, h) = (d, h)

  pub targets-Leads :
      (ns : Names) (follow : GoType → Option GoType) (fs : List Field)
      → All (IsDeclared ns) (targets follow fs)
      → All (λ f. Leads ns (follow f.kind)) fs
  unfolding targets
  targets-Leads ns follow [] h = tt
  targets-Leads ns follow (f ∷ fs) h =
      let (d, rest) = cons_target-Leads ns (follow f.kind) (targets follow fs) h in
      (d, targets-Leads ns follow fs rest)

  Leads-top : (ns : Names) (k : GoType) → Leads ns (target_of k) → Leads ns (top_target_of k)
  Leads-top ns (struct pkg name) h = h
  Leads-top ns (pointer (struct pkg name)) h = h
  Leads-top ns (pointer (pointer t)) h = tt
  Leads-top ns (pointer (slice t)) h = tt
  Leads-top ns (pointer (dict k t)) h = tt
  Leads-top ns (pointer (other n p)) h = tt
  Leads-top ns (slice t) h = h
  Leads-top ns (dict k t) h = h
  Leads-top ns (other n p) h = tt

  abbrev VisitedStruct : Text → List StructField → Names → Collected → Type 0
  VisitedStruct name fs names (types, names') =
      Collects names types names' × ((fs ≡ []) ⊎ (contains name names' ≡ true))

  with_type-Collects :
      (visit : GoType → Names → Found Collected)
      → Visits visit
      → (name : Text) (fs : List StructField) (names : Names)
      → Gives
          (VisitedStruct name fs names)
          (with_type fields_of visit names (named name (map field_of fs)))
  with_type-Collects visit visits name [] names = (Collects-nil names, inl refl)
  with_type-Collects visit visits name (f ∷ fs) names = go (contains name names) refl
    where
      fields : List Field
      fields = map field_of (f ∷ fs)

      d : DataType
      d = named name fields

      names₁ : Names
      names₁ = names ++ name ∷ []

      go :
          (old : Bool)
          → contains name names ≡ old
          → Gives
              (VisitedStruct name (f ∷ fs) names)
              (elim (elim old as (λ _. Bool) [ true ↦ false | false ↦ true ])
                as (λ _. Found Collected) [
                  | true ↦ visit_all visit (targets target_of fields) names₁ >>= λ (types, names').
                      found (d ∷ types, names')
                  | false ↦ found ([], names)
                ])
      go true old = (Collects-nil names, inr old)
      go false fresh =
          >>=-Gives (VisitedAll (targets target_of fields) names₁) _
            (visit_all visit (targets target_of fields) names₁) _
            (visit_all-Collects visit visits (targets target_of fields) names₁)
            λ (sub, names₂) (c, ds).
              let after : names₂ ≡ names ++ name ∷ names_of sub =
                c.appended ∙ append_assoc names (name ∷ []) (names_of sub) in
              (
                record {
                  appended = after;
                  distinct = λ h. c.distinct (Distinct-snoc name names fresh h);
                  closed = (
                    All-mono _ _ fields (λ f. Leads-top names₂ f.kind)
                        (targets-Leads names₂ target_of fields ds),
                    c.closed,
                  );
                },
                inr (
                    rw after (
                      ground (
                        arith,
                        contains-append name names (name ∷ names_of sub),
                        text_eq_refl name,
                      ))),
              )

  pub collect_types-Visits : (fuel : ℕ) → Visits (collect_types fields_of fuel)
  unfolding collect_types
  collect_types-Visits zero t names = tt
  collect_types-Visits (suc fuel) (struct pkg name) names =
      with_type-Collects (collect_types fields_of fuel) (collect_types-Visits fuel) name
        (fields_of pkg name) names
  collect_types-Visits (suc fuel) (pointer t) names = tt
  collect_types-Visits (suc fuel) (slice t) names = tt
  collect_types-Visits (suc fuel) (dict k t) names = tt
  collect_types-Visits (suc fuel) (other n p) names = tt
