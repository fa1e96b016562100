-- ===== src/Impact/Bounds.antt =====
-- The traversal ends, and visits no more nodes than its bound and what it starts from.
use latchkit.Base.{
  inl, inr, ◌⊎◌, ℕ, zero, suc, ◌+◌, ◌-◌, ◌≤◌, ◌≡◌, refl, ap, ◌∙◌, String, List, [], ◌∷◌, ◌++◌, some,
  contains, length, leb, arith, Bool-cases, length-append,
}
use latchkit.Impact.Traversal.{
  Links, Traversal, visit, visited_keys, expand, start, neighbors, path_to, next_step, run,
  traverse, nothing_visited, max_reconcile_traversal_nodes,
}

-- The nodes that may still be looked at.
abbrev remaining : Traversal → ℕ
remaining t = length t.pending + (500 - length t.visited)

expand-remaining :
    (path keys : List String) (t : Traversal) → remaining (expand path keys t) ≤ remaining t
unfolding expand
expand-remaining path [] t = omega arith
expand-remaining path (key ∷ keys) t = elim (Bool-cases (contains (visited_keys t) key)) [
  | inl v ↦ ground (arith, expand-remaining path keys t)
  | inr v ↦ elim (Bool-cases (leb max_reconcile_traversal_nodes (length t.visited))) [
    | inl l ↦ ground arith
    | inr l ↦
        let rest = expand-remaining path keys (visit t key (path ++ key ∷ [])) in
        ground (
          arith,
          rest,
          length-append t.visited ((key, path ++ key ∷ []) ∷ []),
          length-append t.pending (key ∷ []),
        )
  ]
]

expand-size :
    (bound : ℕ) (path keys : List String) (t : Traversal)
    → 500 ≤ bound
    → length t.visited ≤ bound
    → length (expand path keys t).visited ≤ bound
unfolding expand
expand-size bound path [] t b l = l
expand-size bound path (key ∷ keys) t b l = elim (Bool-cases (contains (visited_keys t) key)) [
  | inl v ↦ ground (arith, expand-size bound path keys t b)
  | inr v ↦ elim (Bool-cases (leb max_reconcile_traversal_nodes (length t.visited))) [
    | inl full ↦ ground arith
    | inr more ↦ ground (
      arith,
      expand-size bound path keys (visit t key (path ++ key ∷ [])) b,
      length-append t.visited ((key, path ++ key ∷ []) ∷ []),
    )
  ]
]

start-size :
    (keys : List String) (t : Traversal)
    → length t.pending ≡ length t.visited
    → (length (start keys t).pending ≡ length (start keys t).visited)
      × (length (start keys t).visited ≤ length t.visited + length keys)
start-size [] t e = (e, omega arith)
start-size (key ∷ keys) t e = elim (Bool-cases (contains (visited_keys t) key)) [
  | inl v ↦ ground (arith, start-size keys t e)
  | inr v ↦
      let visits = length-append t.visited ((key, key ∷ []) ∷ []) in
      let queue = length-append t.pending (key ∷ []) in
      let rest = start-size keys (visit t key (key ∷ [])) (omega arith) in
      ground (arith, rest, visits, queue)
]

pub run-empty :
    (fuel : ℕ) (edges : Links) (t : Traversal) → t.pending ≡ [] → run fuel edges t ≡ some t
unfolding run
run-empty zero edges t e = ground arith
run-empty (suc fuel) edges t e = ground arith

pub run-next :
    (fuel : ℕ) (edges : Links) (t : Traversal) (key : String) (rest : List String)
    → t.pending ≡ key ∷ rest
    → run (suc fuel) edges t ≡ run fuel edges (next_step edges t key rest)
unfolding run
run-next fuel edges t key rest e = ground arith

next_step-remaining :
    (edges : Links) (t : Traversal) (key : String) (rest : List String)
    → t.pending ≡ key ∷ rest
    → suc (remaining (next_step edges t key rest)) ≤ remaining t
next_step-remaining edges t key rest e =
    let expanded =
      expand-remaining (path_to t key) (neighbors edges key) (record t { pending = rest }) in
    let queue : length t.pending ≡ suc (length rest) = ap length e in omega (arith, expanded, queue)

pub queue-cases :
    (queue : List String)
    → (queue ≡ []) ⊎ ((key : String) × (rest : List String) × (queue ≡ key ∷ rest))
queue-cases [] = inl refl
queue-cases (key ∷ rest) = inr (key, rest, refl)

run-total :
    (bound fuel : ℕ) (edges : Links) (t : Traversal)
    → 500 ≤ bound
    → length t.visited ≤ bound
    → remaining t ≤ fuel
    → (r : Traversal) × (run fuel edges t ≡ some r) × (length r.visited ≤ bound)
run-total bound zero edges t b l f = elim (queue-cases t.pending) [
  | inl e ↦ (t, run-empty zero edges t e, l)
  | inr (key, rest, e) ↦
      let queue : length t.pending ≡ suc (length rest) = ap length e in absurd (none_left _ queue f)
]
  where
    none_left : {m n : ℕ} (k : ℕ) → m ≡ suc n → ¬ (m + k ≤ 0)
    none_left k e f = omega arith
run-total bound (suc fuel) edges t b l f = elim (queue-cases t.pending) [
  | inl e ↦ (t, run-empty (suc fuel) edges t e, l)
  | inr (key, rest, e) ↦
      let smaller = next_step-remaining edges t key rest e in
      let (r, done, small) =
        run-total bound fuel edges (next_step edges t key rest) b
          (expand-size bound (path_to t key) (neighbors edges key) (record t { pending = rest }) b
            l)
          (omega arith) in
      (r, run-next fuel edges t key rest e ∙ done, small)
]

-- The traversal ends within its fuel, and visits at most 500 nodes, or as many as it starts from.
pub traverse-ends :
    (edges : Links) (starts : List String) (bound : ℕ)
    → max_reconcile_traversal_nodes ≤ bound
    → length starts ≤ bound
    → (r : Traversal) × (traverse edges starts ≡ some r) × (length r.visited ≤ bound)
unfolding traverse
traverse-ends edges starts bound b s =
    let (queue, size) = start-size starts nothing_visited refl in
    run-total bound (length starts + max_reconcile_traversal_nodes) edges
      (start starts nothing_visited) b (omega arith) (omega arith)
