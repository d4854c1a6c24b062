-- ===== src/Tests/Gen.antt =====
-- A client of one operation, whose input leads to a type that leads to itself.
use treenq.Base.{
  true, List, [], ◌∷◌, map, Text, text_eq, bytes, if◌then◌else◌, ◌≡◌, ◌≢◌, refl, arith,
}
use treenq.Vel.Gen.{
  struct, pointer, slice, StructField, DataType, named, field_of, Meta, ApiDesc, Names, contains,
  found, new_client_gen, collect_api, collect_types, make_api_desc, targets,
}
use treenq.Vel.Gen.Names.{names_of, Distinct, text_eq_comm}
use treenq.Vel.Gen.Declared.{declared}
use treenq.Vel.Gen.Whole.{SameNamed, AllWhole, new_client_gen-AllWhole}
use treenq.Vel.Gen.Ends.{new_client_gen-found}

-- `type Request struct { Root *Node }`, and `type Node struct { Next *Node; Items []Node }`.
abbrev fields_of : Text → Text → List StructField
fields_of pkg name =
    if text_eq name (bytes "Request")
    then record {
      name = bytes "Root";
      kind = pointer (struct (bytes "web") (bytes "Node"));
      json = bytes "root";
    }
      ∷ []
    else if text_eq name (bytes "Node")
    then record {
      name = bytes "Next";
      kind = pointer (struct (bytes "web") (bytes "Node"));
      json = bytes "next";
    }
      ∷ record {
        name = bytes "Items";
        kind = slice (struct (bytes "web") (bytes "Node"));
        json = bytes "items";
      }
      ∷ []
    else []

abbrev metas : List Meta
metas =
    record {
      input = struct (bytes "web") (bytes "Request");
      output = struct [] [];
      operation_id = bytes "walk";
    }
    ∷ []

abbrev known : Names
known = bytes "Request" ∷ bytes "Node" ∷ []

finite : (pkg name : Text) → fields_of pkg name ≢ [] → contains name known ≡ true
finite pkg name some_of =
    ground (arith, text_eq_comm name (bytes "Request"), text_eq_comm name (bytes "Node"))

new_client_gen-found_example :
    (r : List ApiDesc × Names) × (new_client_gen fields_of 3 metas [] ≡ found r)
new_client_gen-found_example =
    new_client_gen-found fields_of known 3 metas finite (omega arith)
      ((tt, tt, λ never. ground arith), tt)

abbrev type_of : Text → DataType
type_of name = named name (map field_of (fields_of (bytes "web") name))

abbrev walk : ApiDesc
walk = record {
  input = type_of (bytes "Request");
  output = named [] [];
  operation_id = bytes "walk";
  func_name = bytes "Walk";
  data_types = type_of (bytes "Request") ∷ type_of (bytes "Node") ∷ [];
}

walked : new_client_gen fields_of 3 metas [] ≡ found (walk ∷ [], known)
unfolding new_client_gen collect_api collect_types make_api_desc targets
walked = refl

-- All struct types are of one package.
same_named : SameNamed fields_of
same_named pkg pkg' name some_of some_of' = refl

new_client_gen-AllWhole_example :
    Distinct (names_of (declared (walk ∷ [])))
    × AllWhole fields_of (declared (walk ∷ [])) metas (walk ∷ [])
new_client_gen-AllWhole_example =
    new_client_gen-AllWhole fields_of 3 metas (walk ∷ []) known same_named walked
