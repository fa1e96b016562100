-- ===== src/Records/Order.antt =====
-- Where the search finds no cycle, each record comes after those it depends on, so there is none.
use latchkit.Base.{
  ℕ, zero, suc, ◌≤◌, ◌<◌, ◌≡◌, refl, sym, subst, inl, inr, String, Bool, true, false, ◌&&◌, List,
  [], ◌∷◌, ◌++◌, length, all, contains, ◌==◌, eq_iff, eq_self, arith, Bool-cases, if◌then◌else◌,
}
use latchkit.Records.Cycles.{
  Edges, successors, Visit, done, cycle, out_of_fuel, visit_each, visit, closed, keys,
}
use latchkit.Records.Search.{is_walk, Visit-cases}

-- The last in front: each comes after all that it depends on.
abbrev pub is_ordered : Edges → List String → Bool
is_ordered edges [] = true
is_ordered edges (node ∷ order) =
    all (contains order) (successors edges node) && is_ordered edges order

-- What a visit adds to an order.
pub record IsExtension (edges : Edges) (finished nodes after : List String) : Type 0 where
  pub ordered : is_ordered edges after ≡ true
  pub visited : all (contains after) nodes ≡ true
  pub kept : (x : String) → contains finished x ≡ true → contains after x ≡ true

all-contains_mono :
    (xs ys nodes : List String)
    → ((x : String) → contains xs x ≡ true → contains ys x ≡ true)
    → all (contains xs) nodes ≡ true
    → all (contains ys) nodes ≡ true
all-contains_mono xs ys [] h a = refl
all-contains_mono xs ys (n ∷ nodes) h a = ground (arith, all-contains_mono xs ys nodes h, h n)

pub visit_each-IsExtension :
    (edges : Edges) (visit_one : List String → String → Visit) (finished nodes after : List String)
    → ((before next : List String) (node : String)
        → is_ordered edges before ≡ true
        → visit_one before node ≡ done next
        → IsExtension edges before (node ∷ []) next)
    → is_ordered edges finished ≡ true
    → visit_each visit_one finished nodes ≡ done after
    → IsExtension edges finished nodes after
visit_each-IsExtension edges visit_one finished [] after visits o h = record {
  ordered = ground arith;
  visited = refl;
  kept = λ x c. ground arith;
}
visit_each-IsExtension edges visit_one finished (node ∷ nodes) after visits o h =
    elim (Visit-cases (visit_one finished node)) [
      | inl (next, e) ↦
          let first = visits finished next node o e in
          let rest =
            visit_each-IsExtension edges visit_one next nodes after visits first.ordered
              (ground arith) in
          record {
            ordered = rest.ordered;
            visited = ground (arith, first.visited, rest.visited, rest.kept node);
            kept = λ x c. rest.kept x (first.kept x c);
          }
      | inr (inl (found, e)) ↦ ground arith
      | inr (inr e) ↦ ground arith
    ]

closed-cases :
    (node : String) (inner : Visit) (after : List String)
    → closed node inner ≡ done after
    → (before : List String) × (inner ≡ done before) × (after ≡ node ∷ before)
closed-cases node (done before) after h = (before, refl, ground arith)
closed-cases node (cycle path) after h = cc
closed-cases node out_of_fuel after h = cc

pub visit-IsExtension :
    (fuel : ℕ) (edges : Edges) (stack finished after : List String) (node : String)
    → is_ordered edges finished ≡ true
    → visit fuel edges stack finished node ≡ done after
    → IsExtension edges finished (node ∷ []) after
unfolding visit
visit-IsExtension zero edges stack finished after node o h = cc
visit-IsExtension (suc fuel) edges stack finished after node o h =
    elim (Bool-cases (contains finished node)) [
      | inl f ↦ record {
        ordered = ground arith;
        visited = ground arith;
        kept = λ x c. ground arith;
      }
      | inr f ↦ elim (Bool-cases (contains stack node)) [
        | inl c ↦ ground arith
        | inr c ↦
            let (before, inner, same) =
              closed-cases node
                (visit_each (visit fuel edges (stack ++ node ∷ [])) finished
                  (successors edges node))
                after (ground arith) in
            let rest =
              visit_each-IsExtension edges (visit fuel edges (stack ++ node ∷ [])) finished
                (successors edges node) before
                (λ older next other.
                  visit-IsExtension fuel edges (stack ++ node ∷ []) older next other)
                o inner in
            subst (IsExtension edges finished (node ∷ [])) (sym same) (record {
              ordered = ground (arith, rest.ordered, rest.visited);
              visited = ground (arith, eq_self node);
              kept = λ x k. ground (arith, rest.kept x k);
            })
      ]
    ]

-- The place of a node, counted from the first that was done.
rank : List String → String → ℕ
rank [] x = 0
rank (node ∷ order) x = if contains order x then rank order x else suc (length order)

rank-length : (order : List String) (x : String) → rank order x ≤ length order
unfolding rank
rank-length [] x = omega arith
rank-length (node ∷ order) x = ground (arith, rank-length order x)

all-member :
    (p : String → Bool) (xs : List String) (x : String)
    → all p xs ≡ true
    → contains xs x ≡ true
    → p x ≡ true
all-member p [] x a c = cc
all-member p (y ∷ xs) x a c = elim (Bool-cases (y == x)) [
  | inl e ↦ subst (λ z. p z ≡ true) ((eq_iff y x).0 e) (ground arith)
  | inr e ↦ all-member p xs x (ground arith) (ground arith)
]

rank-successor :
    (edges : Edges) (order : List String) (x y : String)
    → is_ordered edges order ≡ true
    → contains order x ≡ true
    → contains (successors edges x) y ≡ true
    → (contains order y ≡ true) × (rank order y < rank order x)
unfolding rank
rank-successor edges [] x y o c e = cc
rank-successor edges (node ∷ order) x y o c e = elim (Bool-cases (contains order x)) [
  | inl in_order ↦ ground (arith, rank-successor edges order x y)
  | inr new ↦
      let same = (eq_iff node x).0 (ground arith) in
      let below =
        all-member (contains order) (successors edges x) y
          (subst (λ z. all (contains order) (successors edges z) ≡ true) same (ground arith)) e in
      ground (arith, rank-length order y)
]

-- A walk in an order goes down.
rank-walk :
    (edges : Edges) (order path : List String) (x last : String)
    → is_ordered edges order ≡ true
    → contains order x ≡ true
    → is_walk edges (x ∷ (path ++ last ∷ [])) ≡ true
    → rank order last < rank order x
rank-walk edges order [] x last o c w = (rank-successor edges order x last o c (ground arith)).1
rank-walk edges order (y ∷ path) x last o c w =
    let (inside, less) = rank-successor edges order x y o c (ground arith) in
    let rest = rank-walk edges order path y last o inside (ground arith) in omega arith

successors-key :
    (edges : Edges) (x y : String)
    → contains (successors edges x) y ≡ true
    → contains (keys edges) x ≡ true
successors-key [] x y e = cc
successors-key ((key, targets) ∷ edges) x y e = ground (arith, successors-key edges x y)

first_is_key :
    (edges : Edges) (v last : String) (path : List String)
    → is_walk edges (v ∷ (path ++ last ∷ [])) ≡ true
    → contains (keys edges) v ≡ true
first_is_key edges v last [] w = successors-key edges v last (ground arith)
first_is_key edges v last (y ∷ path) w = successors-key edges v y (ground arith)

-- An order of all keys leaves no cycle.
pub is_ordered-acyclic :
    (edges : Edges) (order middle : List String) (v : String)
    → is_ordered edges order ≡ true
    → all (contains order) (keys edges) ≡ true
    → is_walk edges (v ∷ (middle ++ v ∷ [])) ≡ false
is_ordered-acyclic edges order middle v o a =
    elim (Bool-cases (is_walk edges (v ∷ (middle ++ v ∷ [])))) [
      | inr w ↦ w
      | inl w ↦
          let inside =
            all-member (contains order) (keys edges) v a (first_is_key edges v v middle w) in
          absurd (irreflexive (rank order v) (rank-walk edges order middle v v o inside w))
    ]
  where
    irreflexive : (n : ℕ) → ¬ (n < n)
    irreflexive n h = omega arith
