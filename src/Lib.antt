-- ===== src/Lib.antt =====
-- Fosforescent: a graph of content-addressed nodes that devices and peers edit, exchange and merge.
--
-- The program's parts and how they meet. A node (shared/types.ts) is data and ordered edges; its id is
-- a hash of both (shared/dag-implementation/cid.ts). A store (shared/dag-implementation/store.ts) is a
-- table from ids to nodes. The graph functions (shared/sync/graph.ts) read and rebuild nodes; nodes
-- that a peer sends enter through `importNodes`. Two versions of a node are merged against the version
-- both sides knew (shared/sync/merge.ts). A reference names a node by a path of
-- names up and down the scopes around it (shared/sync/ref-paths.ts). A worker takes
-- a lease on a task before it works on it (shared/sync/work-claims.ts, shared/sync/events.ts). The server keeps each user's tokens and a ledger of what
-- changed them (backend/tokenManager.ts), and lets a device attach to a user's nodes by an invite that
-- the user approves (backend/sync/peerInvites.ts). A new account is confirmed by a code or a link
-- (backend/auth/confirmation.ts), and a device without a browser signs in by a code that its user
-- approves in one (backend/auth/deviceLogin.ts).
--
-- Files and code.
--   Common       shared helpers: tests, lists, maps with text keys, signed integers, texts,
--                tables of rows with an id
--   Node         FosNodeContent and JSON data of shared/types.ts, normalizeObject of cid.ts
--   Cid          shared/dag-implementation/cid.ts: parseCid, formatCid, isCurrentCid, hashContent, verifyCid
--   Store        shared/dag-implementation/store.ts: storeOf, putNode; importNodes of shared/sync/graph.ts
--   Graph        shared/sync/graph.ts with shared/sync/primitives.ts and shared/sync/fields.ts, by child:
--     Data       what is read of a node's data
--     Primitive  primitive, primitiveName: the nodes that the other functions know by their ids
--     Refs       references, handles and the tests on edges
--     Choice     putChoice, readChoice and their pointer nodes
--     Branch     branch choices, the selections of a process, putBranches, updateBranch
--     Value      fields.ts: valueOf, textOf, leafText, leafValue, fieldText, fieldEdge, fieldValue
--     Proposal   proposalContent, readProposal, withProposal, markProposalRejected, readProposals
--     Edges      edgeKey, findEdge, replaceEdge, findAliasEdge
--     Link       rowTypeOf, isRowEdge, stripLink, bookkeepingOf, makeLink, putRefValueBranches
--     Root       commitRoot, linkHistory, rootTargetCid, rootStoredTarget
--     Reach      reachableNodes, reachableSet, exportReachableContext
--   Merge        shared/sync/merge.ts: orderedKeys, mergeData, sameValue, sameEdge here, and by child:
--     Children   mergeChildren
--     Options    the merge of two branch choices, in mergeNode
--     Refs       the merge of two references, in mergeNode
--     Nodes      mergeNode, mergeNodes
--     Resolve    resolveChoiceIn
--   Tokens       backend/tokenManager.ts with its tables of infra/prisma/schema.prisma: a method each
--   Invites      backend/sync/peerInvites.ts: the handlers, with the table as prismaInviteRepo reads it
--   Confirm      backend/auth/confirmation.ts: start, confirm, resend
--   Device       backend/auth/deviceLogin.ts: the code, the map of codes and the handlers
--   RefPaths     shared/sync/ref-paths.ts: parseRefExpression, formatRefExpression
--   Work         shared/sync/work-claims.ts: workClaims, workOverlaps; the events of kind work in
--                dispatch of shared/sync/events.ts
--   Samples      concrete data for the tests
--
-- Choices. A `Map` is a list of entries in the order of insertion. Data is a JSON object whose numbers
-- are integers; of them only times and indices are computed with. The text of JSON is not built: two values have the
-- same JSON text when they are equal after their keys are sorted, and keys sort by code points. The
-- digest, sha3_256 of js-sha3 over the JSON text of a canonical node, is a parameter; where a theorem
-- needs that it yields 64 hex digits, that is a hypothesis. Thrown errors are values of a result type.
-- The loop of `importNodes` takes the number of waiting entries for fuel; each round with progress
-- leaves fewer waiting, so it is enough.
--
-- The functions of Graph compare edges with the ids of primitives. The code puts a primitive's node
-- into the store when it asks for its id; Primitive models that call, and the others use the id alone:
-- they stand for stores in which the primitives' nodes already are, where the call changes nothing. A
-- read that throws is an error value, and a function that puts nodes hands the store on. The
-- selections of branches, kept by the code in maps by store, are a record that is passed along. The walk
-- of `reachableNodes` takes for fuel the length of its stack and the number of edge ends in the store,
-- which every round lowers; `valueOf` stops at depth 32 as the code does. Where a theorem needs that ids
-- of primitives differ, or that a store holds a node under its id, that is a hypothesis.
--
-- `mergeNode` merges what is below by the merger that it is given, itself with less fuel; each level of
-- the two versions takes at most three steps, and without fuel it answers with an error. The choices it
-- makes are listed with the last one in front. The type that the library in scope calls Reference, the
-- nodes that `shippedRef` finds and the ids that `newId` makes are arguments.
--
-- A database table is the list of its rows, which its unique keys look up; a method of the token
-- manager runs alone, as its transaction does, and one that throws changes nothing. `processTokenPurchase`
-- is no transaction: its last update may fail once the tokens are credited, which is an argument, and in
-- a history that update may come apart from its credit, with other calls in between. Amounts are
-- unbounded integers. A handler of invites answers with a body or a status code; its outer `catch`,
-- which answers 500, is modelled for a unique key that is taken. Random ids and texts made from
-- numbers are arguments.
--
-- The parser of reference paths reads codes; its recursion is on the 65 levels that the code allows, and
-- a text one level deeper is refused as the code does.
--
-- A step of Work is one event of `dispatch`; what it asks the graph for is an argument of the step, so a
-- history may answer differently at each.
--
-- Not modelled: the web and desktop front ends, database and network access, the language model and
-- payment services, and the parts of shared/sync and backend that the table above does not name.
pub mod Common
pub mod Node
pub mod Cid
pub mod Store
pub mod Graph
pub mod Merge
pub mod Tokens
pub mod Invites
pub mod Confirm
pub mod Device
pub mod RefPaths
pub mod Work
mod Samples
