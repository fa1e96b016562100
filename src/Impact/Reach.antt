-- ===== src/Impact/Reach.antt =====
-- The nodes that the traversal visits are those that the start reaches, and their paths show how.
use latchkit.Base.{
  ℕ, zero, suc, ◌≡◌, refl, subst, sym, ◌∙◌, String, true, false, ◌||◌, List, [], ◌∷◌, ◌++◌, none,
  some, contains, find, map, all, length, leb, arith, Bool-cases, ◌⊎◌, inl, inr, contains-append,
  eq_iff, eq_self, ◌==◌,
}
use mathlib.Core.List.{map-append}
use latchkit.Impact.Traversal.{
  Links, Traversal, visit, visited_keys, has_key, expand, neighbors, path_to, next_step, run,
  max_reconcile_traversal_nodes,
}
use latchkit.Impact.Bounds.{run-next, queue-cases}

-- A path of neighbors from a start to a node.
pub data IsPath (edges : Links) (starts : List String) : String → List String → Type 0 where
  from_start : (key : String) → contains starts key ≡ true → IsPath edges starts key (key ∷ [])
  extend :
      {key : String} {path : List String}
      → IsPath edges starts key path
      → (next : String) → contains (neighbors edges key) next ≡ true
      → IsPath edges starts next (path ++ next ∷ [])

abbrev pub AllPaths : Links → List String → List (String × List String) → Type 0
AllPaths edges starts [] = Unit {0}
AllPaths edges starts (entry ∷ entries) =
    IsPath edges starts entry.0 entry.1 × AllPaths edges starts entries

pub AllPaths-append :
    (edges : Links) (starts : List String) (entries : List (String × List String)) (key : String)
    (path : List String)
    → AllPaths edges starts entries
    → IsPath edges starts key path
    → AllPaths edges starts (entries ++ (key, path) ∷ [])
AllPaths-append edges starts [] key path a p = (p, tt)
AllPaths-append edges starts (entry ∷ entries) key path a p =
    (a.0, AllPaths-append edges starts entries key path a.1 p)

pub found-IsPath :
    (edges : Links) (starts : List String) (entries : List (String × List String)) (key : String)
    → AllPaths edges starts entries
    → contains (map (λ entry. entry.0) entries) key ≡ true
    → (entry : String × List String) × (find (has_key key) entries ≡ some entry)
      × IsPath edges starts key entry.1
found-IsPath edges starts [] key a c = cc
found-IsPath edges starts (entry ∷ entries) key a c = elim (Bool-cases (entry.0 == key)) [
  | inl e ↦ (
    entry,
    ground arith,
    subst (λ k. IsPath edges starts k entry.1) ((eq_iff entry.0 key).0 e) a.0,
  )
  | inr e ↦
      let (item, found, path) = found-IsPath edges starts entries key a.1 (ground arith) in
      (item, ground arith, path)
]

pub visited-visit :
    (t : Traversal) (key x : String) (path : List String)
    → contains (visited_keys (visit t key path)) x ≡ (contains (visited_keys t) x || key == x)
visited-visit t key x path =
    rw map-append (ground (arith, contains-append (visited_keys t) (key ∷ []) x))

-- What the loop over neighbors adds.
record IsExpansion (t : Traversal) (keys : List String) (r : Traversal) : Type 0 where
  visited : (x : String) → contains (visited_keys t) x ≡ true → contains (visited_keys r) x ≡ true
  pending : (x : String) → contains t.pending x ≡ true → contains r.pending x ≡ true
  queued :
      (x : String)
      → contains (visited_keys r) x ≡ true
      → (contains (visited_keys t) x ≡ true) ⊎ (contains r.pending x ≡ true)
  from_visited :
      (x : String)
      → contains r.pending x ≡ true
      → (contains t.pending x ≡ true) ⊎ (contains (visited_keys r) x ≡ true)
  complete : (r.truncated ≡ true) ⊎ (all (contains (visited_keys r)) keys ≡ true)

expand-IsExpansion :
    (path keys : List String) (t : Traversal) → IsExpansion t keys (expand path keys t)
unfolding expand
expand-IsExpansion path [] t = record {
  visited = λ x c. c;
  pending = λ x c. c;
  queued = λ x c. inl c;
  from_visited = λ x c. inl c;
  complete = inr refl;
}
expand-IsExpansion path (key ∷ keys) t = elim (Bool-cases (contains (visited_keys t) key)) [
  | inl v ↦
      let rest = expand-IsExpansion path keys t in
      rw v (record {
        visited = rest.visited;
        pending = rest.pending;
        queued = rest.queued;
        from_visited = rest.from_visited;
        complete = ground (arith, rest.complete, rest.visited key v);
      })
  | inr v ↦ elim (Bool-cases (leb max_reconcile_traversal_nodes (length t.visited))) [
    | inl l ↦
        rw (v, l)
          (record {
            visited = λ x c. c;
            pending = λ x c. c;
            queued = λ x c. inl c;
            from_visited = λ x c. inl c;
            complete = inl refl;
          })
    | inr l ↦
        let rest = expand-IsExpansion path keys (visit t key (path ++ key ∷ [])) in
        let grown = (λ (x : String). visited-visit t key x (path ++ key ∷ [])) in
        let queue = (λ (x : String). contains-append t.pending (key ∷ []) x) in
        rw (v, l)
          (record {
            visited = λ x c. rest.visited x (ground (arith, grown x));
            pending = λ x c. rest.pending x (ground (arith, queue x));
            queued = λ x c.
                ground (arith, rest.queued x c, grown x, rest.pending x, queue x, eq_self key);
            from_visited =
                λ x c. ground (arith, rest.from_visited x c, rest.visited x, grown x, queue x);
            complete = ground (arith, rest.complete, rest.visited key, grown key, eq_self key);
          })
  ]
]

expand-AllPaths :
    (edges : Links) (starts path keys : List String) (parent : String) (t : Traversal)
    → IsPath edges starts parent path
    → ((x : String) → contains keys x ≡ true → contains (neighbors edges parent) x ≡ true)
    → AllPaths edges starts t.visited
    → AllPaths edges starts (expand path keys t).visited
unfolding expand
expand-AllPaths edges starts path [] parent t p n a = a
expand-AllPaths edges starts path (key ∷ keys) parent t p n a =
    elim (Bool-cases (contains (visited_keys t) key)) [
      | inl v ↦
          rw v (expand-AllPaths edges starts path keys parent t p (λ x c. n x (ground arith)) a)
      | inr v ↦ elim (Bool-cases (leb max_reconcile_traversal_nodes (length t.visited))) [
        | inl l ↦ rw (v, l) a
        | inr l ↦
            rw (v, l)
              (expand-AllPaths edges starts path keys parent (visit t key (path ++ key ∷ [])) p
                (λ x c. n x (ground arith))
                (AllPaths-append edges starts t.visited key (path ++ key ∷ []) a
                  (extend p key (n key (ground (arith, eq_self key))))))
      ]
    ]

-- What holds between two steps of the loop.
pub record IsGood (edges : Links) (starts : List String) (t : Traversal) : Type 0 where
  pub paths : AllPaths edges starts t.visited
  pub from_visited : (x : String) → contains t.pending x ≡ true → contains (visited_keys t) x ≡ true
  pub started : (x : String) → contains starts x ≡ true → contains (visited_keys t) x ≡ true
  pub expanded :
      (x : String)
      → contains (visited_keys t) x ≡ true
      → (contains t.pending x ≡ true)
        ⊎ ((t.truncated ≡ true) ⊎ (all (contains (visited_keys t)) (neighbors edges x) ≡ true))

all-contains_mono :
    (xs ys keys : List String)
    → ((x : String) → contains xs x ≡ true → contains ys x ≡ true)
    → all (contains xs) keys ≡ true
    → all (contains ys) keys ≡ true
all-contains_mono xs ys [] h a = refl
all-contains_mono xs ys (key ∷ keys) h a = ground (arith, all-contains_mono xs ys keys h, h key)

expand-truncated :
    (path keys : List String) (t : Traversal)
    → t.truncated ≡ true
    → (expand path keys t).truncated ≡ true
unfolding expand
expand-truncated path [] t e = e
expand-truncated path (key ∷ keys) t e = ground (
  arith,
  expand-truncated path keys t,
  expand-truncated path keys (visit t key (path ++ key ∷ [])),
)

next_step-IsGood :
    (edges : Links) (starts : List String) (t : Traversal) (key : String) (rest : List String)
    → t.pending ≡ key ∷ rest
    → IsGood edges starts t
    → IsGood edges starts (next_step edges t key rest)
next_step-IsGood edges starts t key rest e good =
    let popped : Traversal = record t { pending = rest } in
    let grown = expand-IsExpansion (path_to t key) (neighbors edges key) popped in
    let here : contains (visited_keys t) key ≡ true =
      good.from_visited key (rw e (ground (arith, eq_self key))) in
    let (entry, found, path) = found-IsPath edges starts t.visited key good.paths here in
    let path_here : IsPath edges starts key (path_to t key) =
      subst (λ o. IsPath edges starts key (elim o [ none ↦ [] | some item ↦ item.1 ])) (sym found)
        path in
    record {
      paths =
          expand-AllPaths edges starts (path_to t key) (neighbors edges key) key popped path_here
            (λ x c. c) good.paths;
      from_visited = λ x c. elim (grown.from_visited x c) [
        | inl old ↦ grown.visited x (good.from_visited x (rw e (ground arith)))
        | inr new ↦ new
      ];
      started = λ x c. grown.visited x (good.started x c);
      expanded = λ x c. elim (Bool-cases (key == x)) [
        | inl same ↦
            let here : key ≡ x = (eq_iff key x).0 same in
            inr (
              subst
                (λ y.
                  ((next_step edges t key rest).truncated ≡ true)
                  ⊎ (all (contains (visited_keys (next_step edges t key rest))) (neighbors edges y)
                      ≡ true))
                here grown.complete)
        | inr other ↦ elim (grown.queued x c) [
          | inr queued ↦ inl queued
          | inl old ↦ elim (good.expanded x old) [
            | inl waiting ↦ inl (
                grown.pending x
                  (still_waiting x other (subst (λ q. contains q x ≡ true) e waiting)))
            | inr (inl cut) ↦
                inr (inl (expand-truncated (path_to t key) (neighbors edges key) popped cut))
            | inr (inr whole) ↦ inr (
                inr (
                  all-contains_mono (visited_keys t) (visited_keys (next_step edges t key rest))
                    (neighbors edges x) grown.visited whole))
          ]
        ]
      ];
    }
  where
    still_waiting :
        (x : String) → (key == x) ≡ false → contains (key ∷ rest) x ≡ true → contains rest x ≡ true
    still_waiting x n c = ground arith

pub run-IsGood :
    (fuel : ℕ) (edges : Links) (starts : List String) (t r : Traversal)
    → IsGood edges starts t
    → run fuel edges t ≡ some r
    → IsGood edges starts r × (r.pending ≡ [])
unfolding run
run-IsGood zero edges starts t r good h = elim (queue-cases t.pending) [
  | inl e ↦
      let same : t ≡ r = ground arith in
      subst (λ x. IsGood edges starts x × (x.pending ≡ [])) same (good, e)
  | inr (key, rest, e) ↦ ground arith
]
run-IsGood (suc fuel) edges starts t r good h = elim (queue-cases t.pending) [
  | inl e ↦
      let same : t ≡ r = ground arith in
      subst (λ x. IsGood edges starts x × (x.pending ≡ [])) same (good, e)
  | inr (key, rest, e) ↦
      run-IsGood fuel edges starts (next_step edges t key rest) r
        (next_step-IsGood edges starts t key rest e good)
        (sym (run-next fuel edges t key rest e) ∙ h)
]
