-- ===== src/Vel/Gen.antt =====
-- pkg/vel/gen/client.go: what the client's generator finds out about the registered operations: the
-- fields of their inputs and outputs, and the struct types that a client has to declare for them.
-- The fields of the program's struct types are a parameter; the templates are left out.
pub mod Names
pub mod Declared
pub mod Ends
pub mod Whole
use treenq.Base.{
  ℕ, zero, suc, ◌-◌, Bool, true, false, ◌&&◌, ◌||◌, leb, List, [], ◌∷◌, ◌++◌, map, Text, bytes,
  text_eq, Option, none, some, if◌then◌else◌,
}

-- `reflect.Type`: a named type has its package and its name. `other` is a type of another kind,
-- with its name and how it is printed. Named slices, maps and pointers are left out.
pub data GoType : Type 0 where
  struct : Text → Text → GoType
  pointer slice : GoType → GoType
  dict : GoType → GoType → GoType
  other : Text → Text → GoType

-- `t.Name()`: only a named type has one.
abbrev pub name_of : GoType → Text
name_of (struct pkg name) = name
name_of (other name printed) = name
name_of (pointer t) = []
name_of (slice t) = []
name_of (dict k t) = []

-- `t.String()`.
abbrev pub printed : GoType → Text
printed (struct pkg name) = pkg ++ b'.' ∷ name
printed (pointer t) = b'*' ∷ printed t
printed (slice t) = bytes "[]" ++ printed t
printed (dict k t) = bytes "map[" ++ (printed k ++ b']' ∷ printed t)
printed (other name text) = text

pub record StructField : Type 0 where
  pub name : Text
  pub kind : GoType
  pub json : Text

pub record Field : Type 0 where
  pub name : Text
  pub kind : GoType
  pub type_name : Text
  pub json_tag : Text

pub record DataType : Type 0 where
  pub name : Text
  pub fields : List Field

pub record ApiDesc : Type 0 where
  pub input : DataType
  pub output : DataType
  pub operation_id : Text
  pub func_name : Text
  pub data_types : List DataType

-- The types of a handler's input and output, and its operation.
pub record Meta : Type 0 where
  pub input : GoType
  pub output : GoType
  pub operation_id : Text

-- The names of the types that have been collected, each behind those before it.
abbrev pub Names : Type 0
Names = List Text

abbrev pub contains : Text → Names → Bool
contains n [] = false
contains n (m ∷ ms) = text_eq m n || contains n ms

-- How a computation ends: with a value, in a panic, or for want of fuel.
pub data Found {ℓ} (A : Type ℓ) : Type ℓ where
  found : A → Found A
  crashed : Text → Found A
  out_of_fuel : Found A

infixl 5 ◌>>=◌
abbrev pub ◌>>=◌ : {A B : Type 0} → Found A → (A → Found B) → Found B
found a >>= f = f a
crashed m >>= f = crashed m
out_of_fuel >>= f = out_of_fuel

-- The text that a field's type is written with: a struct that it leads to loses its package.
abbrev pub type_name_of : GoType → Text
type_name_of (struct pkg name) = name
type_name_of (pointer (struct pkg name)) = b'*' ∷ name
type_name_of (slice (struct pkg name)) = bytes "[]" ++ name
type_name_of (dict k (struct pkg name)) = bytes "map[" ++ (name_of k ++ b']' ∷ name)
type_name_of t = printed t

abbrev pub field_of : StructField → Field
field_of f = record {
  name = f.name;
  kind = f.kind;
  type_name = type_name_of f.kind;
  json_tag = f.json;
}

-- Without fields a type has no name.
abbrev pub named : Text → List Field → DataType
named name [] = record { name = []; fields = [] }
named name (f ∷ fs) = record { name = name; fields = f ∷ fs }

-- The struct that a field of a collected type leads to.
abbrev pub struct_of : GoType → Option GoType
struct_of (struct pkg name) = some (struct pkg name)
struct_of _ = none

abbrev pub behind : GoType → Option GoType
behind (pointer t) = struct_of t
behind t = struct_of t

abbrev pub target_of : GoType → Option GoType
target_of (struct pkg name) = some (struct pkg name)
target_of (pointer t) = behind t
target_of (slice t) = behind t
target_of (dict k t) = behind t
target_of (other name text) = none

-- The struct that a field of an input or an output leads to: one step into a slice or a map, then
-- one behind a pointer.
abbrev pub unwrapped : GoType → GoType
unwrapped (slice t) = t
unwrapped (dict k t) = t
unwrapped t = t

abbrev pub top_target_of : GoType → Option GoType
top_target_of t = behind (unwrapped t)

abbrev pub cons_target : Option GoType → List GoType → List GoType
cons_target none ts = ts
cons_target (some t) ts = t ∷ ts

unfoldable pub targets : (GoType → Option GoType) → List Field → List GoType
targets follow [] = []
targets follow (f ∷ fs) = cons_target (follow f.kind) (targets follow fs)

-- The types that a call collects, and the names behind it.
abbrev pub Collected : Type 0
Collected = List DataType × Names

abbrev pub visit_all : (GoType → Names → Found Collected) → List GoType → Names → Found Collected
visit_all visit [] names = found ([], names)
visit_all visit (t ∷ ts) names = visit t names >>= λ (first, names₁).
    visit_all visit ts names₁ >>= λ (rest, names₂). found (first ++ rest, names₂)

module _ (fields_of : Text → Text → List StructField) where
  -- `NumField` of another type than a struct panics.
  abbrev pub extract_data_type : GoType → Found DataType
  extract_data_type (struct pkg name) = found (named name (map field_of (fields_of pkg name)))
  extract_data_type t = crashed (bytes "reflect: NumField of non-struct type " ++ printed t)

  abbrev pub is_new : DataType → Names → Bool
  is_new d names = elim d.fields [
    | [] ↦ false
    | _ ∷ _ ↦ elim (contains d.name names) [ true ↦ false | false ↦ true ]
  ]

  abbrev pub add_new : DataType → Names → Collected
  add_new d names = if is_new d names then (d ∷ [], names ++ d.name ∷ []) else ([], names)

  abbrev pub with_type : (GoType → Names → Found Collected) → Names → DataType → Found Collected
  with_type visit names d = elim (is_new d names) [
    | true ↦
        visit_all visit (targets target_of d.fields) (names ++ d.name ∷ []) >>= λ (types, names').
        found (d ∷ types, names')
    | false ↦ found ([], names)
  ]

  -- `collectTypes`, on the depth of its calls.
  unfoldable pub collect_types : ℕ → GoType → Names → Found Collected
  unfolding targets
  collect_types zero t names = out_of_fuel
  collect_types (suc fuel) t names =
      extract_data_type t >>= λ d. with_type (collect_types fuel) names d

  -- `collectStructs` over the fields of an input or an output.
  abbrev pub collect_structs : ℕ → List Field → Names → Found Collected
  collect_structs fuel fields names =
      visit_all (collect_types fuel) (targets top_target_of fields) names

  abbrev upper : ℕ → ℕ
  upper c = if leb b'a' c && leb c b'z' then c - 32 else c

  -- On ASCII; the first of no runes panics.
  abbrev pub capitalize : Text → Found Text
  capitalize [] = crashed (bytes "index out of range [0] with length 0")
  capitalize (c ∷ s) = found (upper c ∷ s)

  unfoldable pub make_api_desc : Meta → Found ApiDesc
  make_api_desc meta = do
    input ← extract_data_type meta.input
    output ← extract_data_type meta.output
    func_name ← capitalize meta.operation_id
    found (record {
      input = input;
      output = output;
      operation_id = meta.operation_id;
      func_name = func_name;
      data_types = [];
    })

  -- The types of one operation: its input and output, then what their fields lead to.
  unfoldable pub collect_api : ℕ → ApiDesc → Names → Found Collected
  unfolding collect_types
  collect_api fuel desc names = do
    let (inputs, names₁) = add_new desc.input names
    let (outputs, names₂) = add_new desc.output names₁
    let fields = targets top_target_of desc.input.fields ++ targets top_target_of desc.output.fields
    (types, names₃) ← visit_all (collect_types fuel) fields names₂
    found (inputs ++ (outputs ++ types), names₃)

  unfoldable pub new_client_gen : ℕ → List Meta → Names → Found (List ApiDesc × Names)
  unfolding make_api_desc collect_api
  new_client_gen fuel [] names = found ([], names)
  new_client_gen fuel (meta ∷ metas) names = do
    desc ← make_api_desc meta
    (types, names₁) ← collect_api fuel desc names
    (descs, names₂) ← new_client_gen fuel metas names₁
    found (record desc { data_types = types } ∷ descs, names₂)
