-- ===== src/Client/Element.antt =====
-- Element.h: the elements of the messages between the client and the server.
use hsn_capture_hpc_ng.Base.{ℕ, List, [], ◌∷◌, if◌then◌else◌, is_same}

-- Attribute.
pub record Attribute : Type 0 where
  pub name : List ℕ
  pub value : List ℕ

-- getAttributeValue: the first attribute of that name, or the empty string.
unfoldable pub get_attribute_value : List ℕ → List Attribute → List ℕ
get_attribute_value name [] = []
get_attribute_value name (a ∷ others) =
    if is_same a.name name then a.value else get_attribute_value name others

-- The members of Element, with the child elements in their order. An element that has none has an
-- empty list.
mutual
  pub data Element : Type 0 where
    element :
        (name : List ℕ) (attributes : List Attribute) (content : List ℕ) (children : Elements)
        → Element

  pub data Elements : Type 0 where
    no_elements : Elements
    child : Element → Elements → Elements
