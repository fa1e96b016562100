-- ===== src/Records/Cycles.antt =====
-- task-state/records.ts: the dependencies of the records, and the search for a cycle in them.
use latchkit.Base.{
  ℕ, zero, suc, String, List, [], ◌∷◌, ◌++◌, none, some, length, contains, ◌==◌, if◌then◌else◌,
}
use latchkit.Records.Model.{TaskRecord, RecordLink, record_link}

-- A `Map` from an id to the `Set` of the ids that it declares a dependency on.
abbrev pub Edges : Type 0
Edges = List (String × List String)

-- `Set.add`.
abbrev pub add : List String → String → List String
add set id = if contains set id then set else set ++ id ∷ []

-- `Map.set`.
abbrev pub set_edges : String → List String → Edges → Edges
set_edges id targets [] = (id, targets) ∷ []
set_edges id targets ((key, value) ∷ edges) =
    let rest = set_edges id targets edges in
    if key == id then (key, targets) ∷ edges else (key, value) ∷ rest

abbrev pub linked_records : List String → List RecordLink → List String
linked_records targets [] = targets
linked_records targets (link ∷ links) = elim link [
  | record_link id revision ↦ linked_records (add targets id) links
  | _ ↦ linked_records targets links
]

abbrev pub targets_of : TaskRecord → List String
targets_of item = elim item.supersedes [
  | none ↦ linked_records [] item.links
  | some id ↦ linked_records (id ∷ []) item.links
]

abbrev pub edges_from : Edges → List TaskRecord → Edges
edges_from edges [] = edges
edges_from edges (item ∷ items) = edges_from (set_edges item.id (targets_of item) edges) items

unfoldable pub build_record_dependency_edges : List TaskRecord → Edges
build_record_dependency_edges = edges_from []

-- `edges.get(node) ?? []`.
abbrev pub successors : Edges → String → List String
successors [] node = []
successors ((key, targets) ∷ edges) node =
    let rest = successors edges node in if key == node then targets else rest

-- `stack.slice(stack.indexOf(node))`, with the bottom of the stack at the head.
abbrev pub slice_from : String → List String → List String
slice_from node [] = []
slice_from node (x ∷ stack) =
    let rest = slice_from node stack in if x == node then x ∷ stack else rest

-- What a visit comes to: the nodes that are then done, a cycle, or no fuel. The nodes that are
-- being visited are those on the stack.
pub data Visit : Type 0 where
  done : List String → Visit
  cycle : List String → Visit
  out_of_fuel : Visit

-- The loop over the successors of a node, or over the keys, with the visit of one.
abbrev pub visit_each : (List String → String → Visit) → List String → List String → Visit
visit_each visit_one finished [] = done finished
visit_each visit_one finished (node ∷ nodes) = elim (visit_one finished node) [
  | done after ↦ visit_each visit_one after nodes
  | cycle path ↦ cycle path
  | out_of_fuel ↦ out_of_fuel
]

abbrev pub closed : String → Visit → Visit
closed node (done after) = done (node ∷ after)
closed node outcome = outcome

-- One fuel for each nested call. `stack` ends with the node that was pushed last.
unfoldable pub visit : ℕ → Edges → List String → List String → String → Visit
visit zero edges stack finished node = out_of_fuel
visit (suc fuel) edges stack finished node =
    let inner =
      visit_each (visit fuel edges (stack ++ node ∷ [])) finished (successors edges node) in
    if contains finished node
    then done finished
    else if contains stack node
    then cycle (slice_from node stack ++ node ∷ [])
    else closed node inner

abbrev pub keys : Edges → List String
keys [] = []
keys ((key, targets) ∷ edges) = key ∷ keys edges

abbrev pub all_targets : Edges → List String
all_targets [] = []
all_targets ((key, targets) ∷ edges) = targets ++ all_targets edges

-- As many nested calls as there are nodes, and the one that finds no new node.
abbrev pub enough_fuel : Edges → ℕ
enough_fuel edges = suc (length (keys edges ++ all_targets edges))

unfoldable pub detect_record_dependency_cycle : Edges → Visit
detect_record_dependency_cycle edges =
    visit_each (visit (enough_fuel edges) edges []) [] (keys edges)
