-- ===== src/Records/Fuel.antt =====
-- The search ends: the stack holds different records, so it is never higher than there are records.
use latchkit.Base.{
  ℕ, zero, suc, ◌+◌, ◌≤◌, ◌<◌, ◌≡◌, ◌≢◌, refl, ◌⊎◌, inl, inr, String, true, false, List, [], ◌∷◌,
  ◌++◌, length, all, contains, distinct, ◌==◌, eq_iff, eq_self, arith, Bool-cases, contains-append,
  all-append, distinct-append_fresh, length-append, if◌then◌else◌,
}
use latchkit.Records.Cycles.{
  Edges, successors, Visit, done, cycle, out_of_fuel, visit_each, visit, closed, keys, all_targets,
  enough_fuel, detect_record_dependency_cycle,
}
use latchkit.Records.Search.{is_walk, IsCycle, Visit-cases, visit-IsCycle, visit_each-cycle}
use latchkit.Records.Order.{visit_each-IsExtension, visit-IsExtension, is_ordered-acyclic}

without : String → List String → List String
without x [] = []
without x (y ∷ ys) = let rest = without x ys in if y == x then ys else y ∷ rest

length-without :
    (x : String) (ys : List String) → contains ys x ≡ true → suc (length (without x ys)) ≡ length ys
unfolding without
length-without x [] c = cc
length-without x (y ∷ ys) c = ground (arith, length-without x ys)

contains-without :
    (x z : String) (ys : List String)
    → (z == x) ≡ false
    → contains ys z ≡ true
    → contains (without x ys) z ≡ true
unfolding without
contains-without x z [] n c = cc
contains-without x z (y ∷ ys) n c =
    ground (arith, contains-without x z ys, eq_iff y x, eq_iff y z, eq_iff z x)

all-without :
    (x : String) (xs ys : List String)
    → contains xs x ≡ false
    → all (contains ys) xs ≡ true
    → all (contains (without x ys)) xs ≡ true
all-without x [] ys n a = refl
all-without x (z ∷ xs) ys n a = ground (arith, all-without x xs ys, contains-without x z ys)

-- Different elements of a list are no more than its length.
distinct-length :
    (xs ys : List String) → distinct xs ≡ true → all (contains ys) xs ≡ true → length xs ≤ length ys
distinct-length [] ys d a = omega arith
distinct-length (x ∷ xs) ys d a =
    let rest =
      distinct-length xs (without x ys) (ground arith)
        (all-without x xs ys (ground arith) (ground arith)) in
    ground (arith, length-without x ys, rest)

visit_each-fuel :
    (visit_one : List String → String → Visit) (finished nodes : List String)
    → ((before : List String) (node : String)
        → contains nodes node ≡ true
        → visit_one before node ≢ out_of_fuel)
    → visit_each visit_one finished nodes ≢ out_of_fuel
visit_each-fuel visit_one finished [] visits h = cc
visit_each-fuel visit_one finished (node ∷ nodes) visits h =
    elim (Visit-cases (visit_one finished node)) [
      | inl (after, e) ↦
          visit_each-fuel visit_one after nodes
            (λ before other c. visits before other (ground arith)) (ground arith)
      | inr (inl (path, e)) ↦ ground arith
      | inr (inr e) ↦ visits finished node (ground (arith, eq_self node)) e
    ]

closed-fuel :
    (node : String) (inner : Visit) → closed node inner ≡ out_of_fuel → inner ≡ out_of_fuel
closed-fuel node (done after) h = cc
closed-fuel node (cycle path) h = cc
closed-fuel node out_of_fuel h = refl

successors-targets :
    (edges : Edges) (x y : String)
    → contains (successors edges x) y ≡ true
    → contains (all_targets edges) y ≡ true
successors-targets [] x y c = cc
successors-targets ((key, targets) ∷ edges) x y c =
    ground (arith, successors-targets edges x y, contains-append targets (all_targets edges) y)

abbrev universe : Edges → List String
universe edges = keys edges ++ all_targets edges

visit-fuel :
    (fuel : ℕ) (edges : Edges) (stack finished : List String) (node : String)
    → distinct stack ≡ true
    → all (contains (universe edges)) stack ≡ true
    → contains (universe edges) node ≡ true
    → length (universe edges) < fuel + length stack
    → visit fuel edges stack finished node ≢ out_of_fuel
unfolding visit
visit-fuel zero edges stack finished node d a u l h =
    absurd (high (distinct-length stack (universe edges) d a) l)
  where
    high : {m n : ℕ} → m ≤ n → ¬ (n < 0 + m)
    high below above = omega arith
visit-fuel (suc fuel) edges stack finished node d a u l h =
    elim (Bool-cases (contains finished node)) [
      | inl f ↦ ground arith
      | inr f ↦ elim (Bool-cases (contains stack node)) [
        | inl c ↦ ground arith
        | inr c ↦
            visit_each-fuel (visit fuel edges (stack ++ node ∷ [])) finished (successors edges node)
              (λ before next e.
                visit-fuel fuel edges (stack ++ node ∷ []) before next
                  (distinct-append_fresh stack node c d)
                  (ground (arith, all-append (contains (universe edges)) stack (node ∷ [])))
                  (ground (
                    arith,
                    contains-append (keys edges) (all_targets edges) next,
                    successors-targets edges node next e,
                  ))
                  (ground (arith, length-append stack (node ∷ []))))
              (closed-fuel node
                (visit_each (visit fuel edges (stack ++ node ∷ [])) finished
                  (successors edges node))
                (ground arith))
      ]
    ]

-- The search for a cycle ends with an answer, whatever the dependencies: its fuel is enough.
pub detect_record_dependency_cycle-ends :
    (edges : Edges) → detect_record_dependency_cycle edges ≢ out_of_fuel
unfolding detect_record_dependency_cycle
detect_record_dependency_cycle-ends edges =
    visit_each-fuel (visit (enough_fuel edges) edges []) [] (keys edges) (λ before node c.
      visit-fuel (enough_fuel edges) edges [] before node refl refl
        (ground (arith, contains-append (keys edges) (all_targets edges) node)) (omega arith))

-- The search either finds a walk of dependencies that ends where it starts, or there is none.
pub detect_record_dependency_cycle-decides :
    (edges : Edges)
    → ((path : List String) × (detect_record_dependency_cycle edges ≡ cycle path)
        × IsCycle edges path)
      ⊎ ((order : List String) × (detect_record_dependency_cycle edges ≡ done order)
          × ((v : String) (middle : List String) → is_walk edges (v ∷ (middle ++ v ∷ [])) ≡ false))
unfolding detect_record_dependency_cycle
detect_record_dependency_cycle-decides edges =
    let search = visit_each (visit (enough_fuel edges) edges []) [] (keys edges) in
    elim (Visit-cases search) [
      | inl (order, e) ↦
          let all_done =
            visit_each-IsExtension edges (visit (enough_fuel edges) edges []) [] (keys edges) order
              (λ older next node. visit-IsExtension (enough_fuel edges) edges [] older next node)
              refl e in
          inr (
            order,
            e,
            λ v middle. is_ordered-acyclic edges order middle v all_done.ordered all_done.visited,
          )
      | inr (inl (path, e)) ↦ inl (
        path,
        e,
        visit_each-cycle (visit (enough_fuel edges) edges []) path (IsCycle edges path) []
            (keys edges)
            (λ before node c. visit-IsCycle (enough_fuel edges) edges [] before path node refl) e,
      )
      | inr (inr e) ↦ absurd (detect_record_dependency_cycle-ends edges e)
    ]
