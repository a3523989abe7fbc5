-- ===== src/Graph/Tests.antt =====
-- The graph helpers on concrete stores.
mod Walks
mod Choices
mod Rows
use fos_mono.Common.{String, false, none, List, [], ◌∷◌, ◌++◌}
use fos_mono.Node.{NodeContent}
use fos_mono.Cid.{hash_content}
use fos_mono.Store.{Table, FosStore}
use fos_mono.Graph.Primitive.{text_node, primitive_node, primitive_cid}
use fos_mono.Graph.Branch.{Branches}
use fos_mono.Samples.{text_digest}

abbrev pub prim : String → String
prim name = primitive_cid text_digest name

abbrev pub entry : NodeContent → String × NodeContent
entry v = (hash_content text_digest v, v)

abbrev pub entries : List NodeContent → Table
entries [] = []
entries (v ∷ vs) = entry v ∷ entries vs

-- The nodes of the primitives of these names.
abbrev pub primitives : List String → Table
primitives [] = entry (text_node "primitive") ∷ []
primitives (name ∷ names) =
    entry (primitive_node text_digest name) ∷ entry (text_node name) ∷ primitives names

abbrev pub no_selection : Branches
no_selection = record { selections = none; policy_reads = false }

abbrev pub store_of_table : Table → String → FosStore
store_of_table table root = record { table = table; root_node_id = root }
