-- ===== src/Impact/Complete.antt =====
-- What a traversal from the start to the end of its queue has visited.
use latchkit.Base.{
  ◌+◌, ◌≡◌, refl, subst, sym, String, Bool, true, false, ◌||◌, List, [], ◌∷◌, none, some, contains,
  all, length, arith, Bool-cases, inl, inr, contains-append, eq_iff, eq_self, ◌==◌,
}
use latchkit.Impact.Traversal.{
  Links, Traversal, visit, visited_keys, start, neighbors, path_to, traverse, nothing_visited,
  max_reconcile_traversal_nodes,
}
use latchkit.Impact.Reach.{
  IsPath, from_start, extend, AllPaths, AllPaths-append, found-IsPath, visited-visit, IsGood,
  run-IsGood,
}

-- All visited nodes are in the queue.
record IsStarting (edges : Links) (starts : List String) (t : Traversal) : Type 0 where
  paths : AllPaths edges starts t.visited
  same : (x : String) → contains t.pending x ≡ contains (visited_keys t) x

visit-IsStarting :
    (edges : Links) (starts : List String) (t : Traversal) (key : String)
    → contains starts key ≡ true
    → IsStarting edges starts t
    → IsStarting edges starts (visit t key (key ∷ []))
visit-IsStarting edges starts t key c s = record {
  paths = AllPaths-append edges starts t.visited key (key ∷ []) s.paths (from_start key c);
  same = λ x.
      ground
        (arith, visited-visit t key x (key ∷ []), contains-append t.pending (key ∷ []) x, s.same x);
}

start-IsStarting :
    (edges : Links) (starts keys : List String) (t : Traversal)
    → ((x : String) → contains keys x ≡ true → contains starts x ≡ true)
    → IsStarting edges starts t
    → IsStarting edges starts (start keys t)
start-IsStarting edges starts [] t k s = s
start-IsStarting edges starts (key ∷ keys) t k s =
    elim (Bool-cases (contains (visited_keys t) key)) [
      | inl v ↦ rw v (start-IsStarting edges starts keys t (λ x c. k x (ground arith)) s)
      | inr v ↦ rw v (
          start-IsStarting edges starts keys (visit t key (key ∷ [])) (λ x c. k x (ground arith))
            (visit-IsStarting edges starts t key (k key (ground (arith, eq_self key))) s))
    ]

start-visited :
    (keys : List String) (t : Traversal) (x : String)
    → (contains (visited_keys t) x || contains keys x) ≡ true
    → contains (visited_keys (start keys t)) x ≡ true
start-visited [] t x c = ground arith
start-visited (key ∷ keys) t x c = elim (Bool-cases (contains (visited_keys t) key)) [
  | inl v ↦ rw v (start-visited keys t x (ground (arith, eq_iff key x, visited_same v)))
  | inr v ↦ rw v (
      start-visited keys (visit t key (key ∷ [])) x
        (ground (arith, visited-visit t key x (key ∷ []))))
]
  where
    visited_same :
        contains (visited_keys t) key ≡ true
        → (key == x) ≡ true
        → contains (visited_keys t) x ≡ true
    visited_same v e = subst (λ y. contains (visited_keys t) y ≡ true) ((eq_iff key x).0 e) v

start-IsGood :
    (edges : Links) (starts : List String) → IsGood edges starts (start starts nothing_visited)
start-IsGood edges starts =
    let s =
      start-IsStarting edges starts starts nothing_visited (λ x c. c)
        (record { paths = tt; same = λ x. refl }) in
    record {
      paths = s.paths;
      from_visited = λ x c. ground (arith, s.same x);
      started = λ x c. start-visited starts nothing_visited x (ground arith);
      expanded = λ x c. inl (ground (arith, s.same x));
    }

traverse-IsGood :
    (edges : Links) (starts : List String) (r : Traversal)
    → traverse edges starts ≡ some r
    → IsGood edges starts r × (r.pending ≡ [])
unfolding traverse
traverse-IsGood edges starts r h =
    run-IsGood (length starts + max_reconcile_traversal_nodes) edges starts
      (start starts nothing_visited) r (start-IsGood edges starts) h

-- The path that a traversal gives for a node that it visited leads over declared links from one of the
-- keys that it started from to the node.
pub traverse-IsPath :
    (edges : Links) (starts : List String) (r : Traversal) (key : String)
    → traverse edges starts ≡ some r
    → contains (visited_keys r) key ≡ true
    → IsPath edges starts key (path_to r key)
traverse-IsPath edges starts r key h c =
    let (good, done) = traverse-IsGood edges starts r h in
    let (entry, found, path) = found-IsPath edges starts r.visited key good.paths c in
    subst (λ o. IsPath edges starts key (elim o [ none ↦ [] | some item ↦ item.1 ])) (sym found)
      path

all-member :
    (p : String → Bool) (keys : List String) (key : String)
    → all p keys ≡ true
    → contains keys key ≡ true
    → p key ≡ true
all-member p [] key a c = cc
all-member p (x ∷ keys) key a c = elim (Bool-cases (x == key)) [
  | inl e ↦ subst (λ y. p y ≡ true) ((eq_iff x key).0 e) (ground arith)
  | inr e ↦ all-member p keys key (ground arith) (ground arith)
]

good_complete :
    (edges : Links) (starts : List String) (r : Traversal) (key : String) (path : List String)
    → IsGood edges starts r
    → r.pending ≡ []
    → r.truncated ≡ false
    → IsPath edges starts key path
    → contains (visited_keys r) key ≡ true
good_complete edges starts r key path good e t (from_start k c) = good.started k c
good_complete edges starts r key path good e t (extend {key = parent} {path = before} p k n) =
    elim (good.expanded parent (good_complete edges starts r parent before good e t p)) [
      | inl waiting ↦ absurd (empty_queue (subst (λ q. contains q parent ≡ true) e waiting))
      | inr (inl cut) ↦ ground arith
      | inr (inr whole) ↦ all-member (contains (visited_keys r)) (neighbors edges parent) k whole n
    ]
  where
    empty_queue : ¬ (contains [] parent ≡ true)
    empty_queue c = cc

-- A traversal that left nothing out has visited every node that declared links connect with one of the
-- keys that it started from.
pub traverse_complete :
    (edges : Links) (starts : List String) (r : Traversal) (key : String) (path : List String)
    → traverse edges starts ≡ some r
    → r.truncated ≡ false
    → IsPath edges starts key path
    → contains (visited_keys r) key ≡ true
traverse_complete edges starts r key path h t p =
    let (good, done) = traverse-IsGood edges starts r h in
    good_complete edges starts r key path good done t p
