-- ===== src/Node.antt =====
-- Node content, shared/types.ts (`FosNodeContent`, `FosDataContent`, `FosPathElem`): the data of a
-- node is a JSON object, its children are ordered edges, each a pair of content ids.
use Prim.Native.String.{compare}
use text.Mathlib.Text.{is_lt}
use fos_mono.Common.{ℕ, String, Bool, List, [], ◌∷◌, ℕ_discrete, String_discrete, if◌then◌else◌}

-- The JSON values that data holds. Numbers are the times and indices that the code stores, and
-- `negative n` is -(n + 1); an
-- object's fields stand in the order of insertion.
mutual
  pub data Json : Type 0 where
    null : Json
    bool : Bool → Json
    num : ℕ → Json
    negative : ℕ → Json
    str : String → Json
    arr : Items → Json
    obj : Fields → Json

  pub data Items : Type 0 where
    nil : Items
    cons : Json → Items → Items

  pub data Fields : Type 0 where
    end : Fields
    field : String → Json → Fields → Fields

abbrev pub Data : Type 0
Data = List (String × Json)

abbrev pub Edge : Type 0
Edge = String × String

pub record NodeContent : Type 0 where
  pub data_fields : Data
  pub children : List Edge

-- One object key is put before the keys that sort after it.
unfoldable pub insert_field : String → Json → Fields → Fields
insert_field k v end = field k v end
insert_field k v (field j w fs) =
    if is_lt (compare j k) then field j w (insert_field k v fs) else field k v (field j w fs)

unfoldable mutual
  pub normalize_object : Json → Json
  normalize_object null = null
  normalize_object (bool b) = bool b
  normalize_object (num n) = num n
  normalize_object (negative n) = negative n
  normalize_object (str s) = str s
  normalize_object (arr xs) = arr (normalize_items xs)
  normalize_object (obj fs) = obj (normalize_fields fs)

  pub normalize_items : Items → Items
  normalize_items nil = nil
  normalize_items (cons x xs) = cons (normalize_object x) (normalize_items xs)

  pub normalize_fields : Fields → Fields
  normalize_fields end = end
  normalize_fields (field k v fs) = insert_field k (normalize_object v) (normalize_fields fs)

abbrev pub to_fields : Data → Fields
to_fields [] = end
to_fields ((k, v) ∷ d) = field k v (to_fields d)

unfoldable pub Json_discrete : Discrete Json
Json_discrete = hlevel (String_discrete, ℕ_discrete)
