-- ===== src/Records/Search.antt =====
-- The search for a cycle: what it finds is one, and where it finds none the records have an order.
use latchkit.Base.{
  ℕ, zero, suc, ◌≡◌, refl, subst, ap, ◌⊎◌, inl, inr, String, Bool, true, ◌&&◌, List, [], ◌∷◌, ◌++◌,
  contains, ◌==◌, eq_iff, eq_self, arith, Bool-cases,
}
use latchkit.Records.Cycles.{
  Edges, successors, slice_from, Visit, done, cycle, out_of_fuel, visit_each, visit,
}

pub Visit-cases :
    (v : Visit)
    → ((after : List String) × (v ≡ done after))
      ⊎ (((path : List String) × (v ≡ cycle path)) ⊎ (v ≡ out_of_fuel))
Visit-cases (done after) = inl (after, refl)
Visit-cases (cycle path) = inr (inl (path, refl))
Visit-cases out_of_fuel = inr (inr refl)

-- Each id declares a dependency on the next one.
abbrev pub is_walk : Edges → List String → Bool
is_walk edges [] = true
is_walk edges (x ∷ []) = true
is_walk edges (x ∷ y ∷ path) = contains (successors edges x) y && is_walk edges (y ∷ path)

-- A walk of one step or more that ends where it starts.
abbrev pub IsCycle : Edges → List String → Type 0
IsCycle edges path =
    (v : String) × (middle : List String) × (path ≡ v ∷ (middle ++ v ∷ []))
    × (is_walk edges path ≡ true)

is_walk-append :
    (edges : Edges) (stack : List String) (x y : String)
    → is_walk edges (stack ++ x ∷ []) ≡ true
    → contains (successors edges x) y ≡ true
    → is_walk edges ((stack ++ x ∷ []) ++ y ∷ []) ≡ true
is_walk-append edges [] x y w e = ground arith
is_walk-append edges (s ∷ []) x y w e = ground arith
is_walk-append edges (s ∷ t ∷ stack) x y w e = ground (arith, is_walk-append edges (t ∷ stack) x y)

is_walk-tail :
    (edges : Edges) (x : String) (path : List String)
    → is_walk edges (x ∷ path) ≡ true
    → is_walk edges path ≡ true
is_walk-tail edges x [] w = refl
is_walk-tail edges x (y ∷ path) w = ground arith

slice_from-IsCycle :
    (edges : Edges) (stack : List String) (node : String)
    → is_walk edges (stack ++ node ∷ []) ≡ true
    → contains stack node ≡ true
    → IsCycle edges (slice_from node stack ++ node ∷ [])
slice_from-IsCycle edges [] node w c = cc
slice_from-IsCycle edges (s ∷ stack) node w c = elim (Bool-cases (s == node)) [
  | inl e ↦ rw e (node, stack, ap (λ x. x ∷ (stack ++ node ∷ [])) ((eq_iff s node).0 e), w)
  | inr e ↦ rw e (
      slice_from-IsCycle edges stack node (is_walk-tail edges s (stack ++ node ∷ []) w)
        (ground arith))
]

-- The path that a loop ends with is the path of one of its visits.
pub visit_each-cycle :
    (visit_one : List String → String → Visit) (path : List String) (G : Type 0)
    (finished nodes : List String)
    → ((before : List String) (node : String)
        → contains nodes node ≡ true
        → visit_one before node ≡ cycle path
        → G)
    → visit_each visit_one finished nodes ≡ cycle path
    → G
visit_each-cycle visit_one path G finished [] visits h = cc
visit_each-cycle visit_one path G finished (node ∷ nodes) visits h =
    elim (Visit-cases (visit_one finished node)) [
      | inl (after, e) ↦
          visit_each-cycle visit_one path G after nodes
            (λ before other c. visits before other (ground arith)) (ground arith)
      | inr (inl (found, e)) ↦ visits finished node (ground (arith, eq_self node)) (ground arith)
      | inr (inr e) ↦ ground arith
    ]

pub visit-IsCycle :
    (fuel : ℕ) (edges : Edges) (stack finished path : List String) (node : String)
    → is_walk edges (stack ++ node ∷ []) ≡ true
    → visit fuel edges stack finished node ≡ cycle path
    → IsCycle edges path
unfolding visit
visit-IsCycle zero edges stack finished path node w h = cc
visit-IsCycle (suc fuel) edges stack finished path node w h =
    elim (Bool-cases (contains finished node)) [
      | inl f ↦ ground arith
      | inr f ↦ elim (Bool-cases (contains stack node)) [
        | inl c ↦ subst (IsCycle edges) (ground arith) (slice_from-IsCycle edges stack node w c)
        | inr c ↦
            visit_each-cycle (visit fuel edges (stack ++ node ∷ [])) path (IsCycle edges path)
              finished (successors edges node)
              (λ before next e.
                visit-IsCycle fuel edges (stack ++ node ∷ []) before path next
                  (is_walk-append edges stack node next w e))
              (ground arith)
      ]
    ]
