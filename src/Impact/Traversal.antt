-- ===== src/Impact/Traversal.antt =====
-- task-state/reconcile.ts, `buildImpactGraph`: the graph of the declared links, and its bounded
-- breadth-first traversal. A key compares by the codes of its characters.
use latchkit.Base.{
  ℕ, zero, suc, ◌+◌, String, Bool, true, false, List, [], ◌∷◌, ◌++◌, Option, none, some, map,
  length, is_empty, leb, codes, concat, contains, find, ◌==◌, if◌then◌else◌,
}
use latchkit.Records.Model.{TaskRecord, RecordLink, record_link, criterion_link}
use latchkit.Versions.Semver.{above, compare_lists, compare_naturals}

abbrev pub record_key : String → String
record_key id = concat ("record:" ∷ id ∷ [])

abbrev pub criterion_key : String → String
criterion_key id = concat ("criterion:" ∷ id ∷ [])

-- The two ends of each edge, in the order of `addEdge`.
abbrev pub Links : Type 0
Links = List (String × String)

abbrev link_edges : String → List RecordLink → Links
link_edges from [] = []
link_edges from (link ∷ links) = elim link [
  | record_link id revision ↦ (from, record_key id) ∷ link_edges from links
  | criterion_link id revision ↦ (from, criterion_key id) ∷ link_edges from links
  | _ ↦ link_edges from links
]

abbrev optional_edge : String → Option String → Links
optional_edge from none = []
optional_edge from (some id) = (from, record_key id) ∷ []

unfoldable pub record_edges : List TaskRecord → Links
record_edges [] = []
record_edges (item ∷ items) =
    optional_edge (record_key item.id) item.supersedes
    ++ (optional_edge (record_key item.id) item.superseded_by
        ++ (link_edges (record_key item.id) item.links ++ record_edges items))

abbrev insert_key : String → List String → List String
insert_key key [] = key ∷ []
insert_key key (other ∷ keys) =
    let rest = insert_key key keys in
    elim (compare_lists compare_naturals (codes key) (codes other)) [
      | above ↦ other ∷ rest
      | _ ↦ key ∷ other ∷ keys
    ]

-- `[...keys].sort()`.
unfoldable pub sort_keys : List String → List String
sort_keys [] = []
sort_keys (key ∷ keys) = insert_key key (sort_keys keys)

-- `Set.add`.
abbrev pub add_key : String → List String → List String
add_key key keys = if contains keys key then keys else key ∷ keys

-- Who shares an edge with the key: the `Set` of `adjacency.get(key)`.
abbrev pub adjacent : Links → String → List String
adjacent [] key = []
adjacent ((a, b) ∷ edges) key =
    let rest = adjacent edges key in
    let with_b = if a == key then add_key b rest else rest in
    if b == key then add_key a with_b else with_b

unfoldable pub neighbors : Links → String → List String
neighbors edges key = sort_keys (adjacent edges key)

abbrev pub max_reconcile_traversal_nodes : ℕ
max_reconcile_traversal_nodes = 500

-- The visited keys with their paths, in the order of their visits; those of them that the cursor has
-- not reached; and whether nodes were left out.
pub record Traversal : Type 0 where
  pub visited : List (String × List String)
  pub pending : List String
  pub truncated : Bool

abbrev pub visited_keys : Traversal → List String
visited_keys t = map (λ entry. entry.0) t.visited

abbrev pub has_key : String → String × List String → Bool
has_key key entry = entry.0 == key

abbrev pub path_to : Traversal → String → List String
path_to t key = elim (find (has_key key) t.visited) [ none ↦ [] | some entry ↦ entry.1 ]

abbrev pub visit : Traversal → String → List String → Traversal
visit t key path = record t {
  visited = t.visited ++ (key, path) ∷ [];
  pending = t.pending ++ key ∷ [];
}

abbrev pub start : List String → Traversal → Traversal
start [] t = t
start (key ∷ keys) t =
    if contains (visited_keys t) key then start keys t else start keys (visit t key (key ∷ []))

-- The loop over the neighbors of one node, with the path to it.
unfoldable pub expand : List String → List String → Traversal → Traversal
expand path [] t = t
expand path (key ∷ keys) t =
    if contains (visited_keys t) key
    then expand path keys t
    else if leb max_reconcile_traversal_nodes (length t.visited)
    then record t { truncated = true }
    else expand path keys (visit t key (path ++ key ∷ []))

abbrev pub next_step : Links → Traversal → String → List String → Traversal
next_step edges t key rest =
    expand (path_to t key) (neighbors edges key) (record t { pending = rest })

-- The loop over the queue: `none` where the fuel runs out before the queue is empty.
unfoldable pub run : ℕ → Links → Traversal → Option Traversal
run zero edges t = if is_empty t.pending then some t else none
run (suc fuel) edges t = elim t.pending [
  | [] ↦ some t
  | key ∷ rest ↦ run fuel edges (next_step edges t key rest)
]

abbrev pub nothing_visited : Traversal
nothing_visited = record { visited = []; pending = []; truncated = false }

-- From the keys of what a patch changes directly, in their order. Each node enters the queue once, so
-- the fuel is the bound on the nodes and the number of these keys.
unfoldable pub traverse : Links → List String → Option Traversal
traverse edges starts =
    run (length starts + max_reconcile_traversal_nodes) edges (start starts nothing_visited)

-- `startKeys`.
unfoldable pub start_keys : List String → List String → List String
start_keys record_ids criterion_ids =
    map record_key (sort_keys record_ids) ++ map criterion_key (sort_keys criterion_ids)
