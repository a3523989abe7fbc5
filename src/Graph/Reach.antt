-- ===== src/Graph/Reach.antt =====
-- The walk over the edges of a store, `hasNode`, `reachableNodes`, `reachableSet` and
-- `exportReachableContext` of shared/sync/graph.ts.
pub mod Steps
pub mod Invariant
pub mod Complete
pub mod Export
use fos_mono.Common.{
  ℕ, zero, suc, ◌+◌, ◌*◌, String, Bool, true, false, List, [], ◌∷◌, ◌++◌, Option, none, some, ◌==◌,
  length, contains, has_key, set_key, keys, if◌then◌else◌,
}
use fos_mono.Node.{Edge, NodeContent}
use fos_mono.Store.{Table, FosStore, Result, ok, content, ◌>>=◌, ◌>>◌}

-- `none` is null or undefined.
unfoldable pub has_node : FosStore → Option String → Bool
has_node store none = false
has_node store (some cid) = if cid == "" then false else has_key cid store.table

-- The stack of the walk, its last element first, the nodes seen and those collected.
pub record Walk : Type 0 where
  pub stack : List String
  pub seen : List String
  pub out : Table

abbrev pub push : List String → String → List String → List String
push seen cid stack = if contains cid seen then stack else cid ∷ stack

unfoldable pub push_edges : List String → List Edge → List String → List String
push_edges seen [] stack = stack
push_edges seen ((i, t) ∷ edges) stack = push_edges seen edges (push seen t (push seen i stack))

-- One round, for the id that was popped.
unfoldable pub visit : FosStore → List String → String → Walk → Result Walk
unfolding push_edges content
visit store skip cid w = if contains cid w.seen then ok w else (do
  value ← content store cid
  ok (record {
    stack = push_edges (cid ∷ w.seen) value.children w.stack;
    seen = cid ∷ w.seen;
    out = if contains cid skip then w.out else set_key cid value w.out;
  }))

-- `while (stack.length)`
unfoldable pub walk : FosStore → List String → ℕ → List String → List String → Table → Result Walk
unfolding visit
walk store skip zero stack seen out = ok (record { stack = stack; seen = seen; out = out })
walk store skip (suc fuel) [] seen out = ok (record { stack = []; seen = seen; out = out })
walk store skip (suc fuel) (cid ∷ stack) seen out = do
  next ← visit store skip cid (record { stack = stack; seen = seen; out = out })
  walk store skip fuel next.stack next.seen next.out

-- The edge ends of the nodes that are not seen, which bounds what is still pushed.
abbrev pub weight : List String → Table → ℕ
weight seen [] = 0
weight seen ((cid, value) ∷ table) =
    (if contains cid seen then 0 else 2 * length value.children) + weight seen table

-- The roots that are in the store, the last one on top of the stack.
unfoldable pub root_stack : FosStore → List (Option String) → List String → List String
unfolding has_node
root_stack store [] stack = stack
root_stack store (none ∷ roots) stack = root_stack store roots stack
root_stack store (some r ∷ roots) stack =
    root_stack store roots (if has_node store (some r) then r ∷ stack else stack)

unfoldable pub reachable_walk : FosStore → List (Option String) → List String → Result Walk
unfolding walk root_stack
reachable_walk store roots skip =
    let stack = root_stack store roots [] in
    walk store skip (length stack + weight [] store.table) stack [] []

unfoldable pub reachable_nodes : FosStore → List (Option String) → List String → Result Table
unfolding reachable_walk
reachable_nodes store roots skip = do w ← reachable_walk store roots skip; ok w.out

unfoldable pub reachable_set : FosStore → List (Option String) → Result (List String)
unfolding reachable_nodes
reachable_set store roots = do nodes ← reachable_nodes store roots []; ok (keys nodes)

pub record Context : Type 0 where
  pub nodes : Table
  pub root_node_id : String

unfoldable pub export_reachable_context : FosStore → List (Option String) → Result Context
unfolding reachable_nodes
export_reachable_context store extra_roots = do
  nodes ← reachable_nodes store (some store.root_node_id ∷ extra_roots) []
  ok (record { nodes = nodes; root_node_id = store.root_node_id })
