-- ===== src/Versions/Order.antt =====
-- The comparison of versions, and when it is a total order up to equal precedence.
use latchkit.Base.{
  all, not, ◌||◌, ℕ, ◌≡◌, refl, Bool, true, false, ◌&&◌, List, [], ◌∷◌, arith, if◌then◌else◌,
}
use latchkit.Versions.Semver.{
  Sign, below, same, above, unordered, Number, finite, infinite, ParsedVersion, compare_naturals,
  compare_numbers, unless_same, compare_lists, is_numeric, number, compare_identifier,
  compare_prereleases, compare_semver,
}

abbrev pub flip : Sign → Sign
flip below = above
flip same = same
flip above = below
flip unordered = unordered

-- What comparisons of a with b and of b with c leave for one of a with c.
abbrev pub fits : Sign → Sign → Sign → Bool
fits below below below = true
fits below same below = true
fits same below below = true
fits same same same = true
fits same above above = true
fits above same above = true
fits above above above = true
fits below above u = true
fits above below u = true
fits _ _ _ = false

abbrev pub is_ordered : Sign → Bool
is_ordered unordered = false
is_ordered _ = true

pub record IsOrder {ℓ} {A : Type ℓ} (compare : A → A → Sign) : Type ℓ where
  pub swapped : (x y : A) → compare y x ≡ flip (compare x y)
  pub ordered : (x y : A) → is_ordered (compare x y) ≡ true
  pub transitive : (x y z : A) → fits (compare x y) (compare y z) (compare x z) ≡ true

compare_naturals-IsOrder : IsOrder compare_naturals
compare_naturals-IsOrder = record {
  swapped = λ x y. ground arith;
  ordered = λ x y. ground arith;
  transitive = λ x y z. ground arith;
}

compare_numbers-IsOrder : IsOrder compare_numbers
compare_numbers-IsOrder = record {
  swapped = λ x y. ground arith;
  ordered = λ x y. ground arith;
  transitive = λ x y z. ground arith;
}

unless_same-flip : (s t : Sign) → unless_same (flip s) (flip t) ≡ flip (unless_same s t)
unless_same-flip s t = ground arith

unless_same-fits :
    (s t u s' t' u' : Sign)
    → fits s t u ≡ true
    → fits s' t' u' ≡ true
    → fits (unless_same s s') (unless_same t t') (unless_same u u') ≡ true
unless_same-fits s t u s' t' u' h h' = ground arith

module _ {ℓ} {A : Type ℓ} (compare : A → A → Sign) (order : IsOrder compare) where
  compare_lists-flip :
      (xs ys : List A) → compare_lists compare ys xs ≡ flip (compare_lists compare xs ys)
  compare_lists-flip [] [] = refl
  compare_lists-flip [] (y ∷ ys) = refl
  compare_lists-flip (x ∷ xs) [] = refl
  compare_lists-flip (x ∷ xs) (y ∷ ys) =
      rw (order.swapped x y, compare_lists-flip xs ys)
        (unless_same-flip (compare x y) (compare_lists compare xs ys))

  compare_lists-ordered : (xs ys : List A) → is_ordered (compare_lists compare xs ys) ≡ true
  compare_lists-ordered [] [] = refl
  compare_lists-ordered [] (y ∷ ys) = refl
  compare_lists-ordered (x ∷ xs) [] = refl
  compare_lists-ordered (x ∷ xs) (y ∷ ys) =
      ground (arith, order.ordered x y, compare_lists-ordered xs ys)

  compare_lists-fits :
      (xs ys zs : List A)
      → fits
          (compare_lists compare xs ys)
          (compare_lists compare ys zs)
          (compare_lists compare xs zs)
        ≡ true
  compare_lists-fits [] [] [] = refl
  compare_lists-fits [] [] (z ∷ zs) = refl
  compare_lists-fits [] (y ∷ ys) [] = refl
  compare_lists-fits [] (y ∷ ys) (z ∷ zs) =
      ground (arith, order.ordered y z, compare_lists-ordered ys zs)
  compare_lists-fits (x ∷ xs) [] [] = refl
  compare_lists-fits (x ∷ xs) [] (z ∷ zs) = refl
  compare_lists-fits (x ∷ xs) (y ∷ ys) [] =
      ground (arith, order.ordered x y, compare_lists-ordered xs ys)
  compare_lists-fits (x ∷ xs) (y ∷ ys) (z ∷ zs) =
      unless_same-fits (compare x y) (compare y z) (compare x z) (compare_lists compare xs ys)
        (compare_lists compare ys zs) (compare_lists compare xs zs) (order.transitive x y z)
        (compare_lists-fits xs ys zs)

  compare_lists-IsOrder : IsOrder (compare_lists compare)
  compare_lists-IsOrder = record {
    swapped = compare_lists-flip;
    ordered = compare_lists-ordered;
    transitive = compare_lists-fits;
  }

texts-IsOrder : IsOrder (compare_lists compare_naturals)
texts-IsOrder = compare_lists-IsOrder compare_naturals compare_naturals-IsOrder

-- The comparison of identifiers without its NaN.
abbrev compare_exactly : List ℕ → List ℕ → Sign
compare_exactly a b =
    if is_numeric a && is_numeric b
    then compare_numbers (number a) (number b)
    else if is_numeric a
    then below
    else if is_numeric b
    then above
    else compare_lists compare_naturals a b

identifiers-fit :
    (p q r : Bool) (s t u s' t' u' : Sign)
    → fits s t u ≡ true
    → fits s' t' u' ≡ true
    → fits
        (if p && q then s else if p then below else if q then above else s')
        (if q && r then t else if q then below else if r then above else t')
        (if p && r then u else if p then below else if r then above else u')
      ≡ true
identifiers-fit p q r s t u s' t' u' h h' = ground arith

compare_exactly-IsOrder : IsOrder compare_exactly
compare_exactly-IsOrder = record {
  swapped = λ x y.
      ground
        (arith, texts-IsOrder.swapped x y, compare_numbers-IsOrder.swapped (number x) (number y));
  ordered = λ x y.
      ground
        (arith, texts-IsOrder.ordered x y, compare_numbers-IsOrder.ordered (number x) (number y));
  transitive = λ x y z.
      identifiers-fit (is_numeric x) (is_numeric y) (is_numeric z) _ _ _ _ _ _
        (compare_numbers-IsOrder.transitive (number x) (number y) (number z))
        (texts-IsOrder.transitive x y z);
}

-- A version without a prerelease is above those with one.
abbrev compare_lists_of : List (List ℕ) → List (List ℕ) → Sign
compare_lists_of [] [] = same
compare_lists_of [] (y ∷ ys) = above
compare_lists_of (x ∷ xs) [] = below
compare_lists_of (x ∷ xs) (y ∷ ys) = compare_lists compare_exactly (x ∷ xs) (y ∷ ys)

ends_above : (s : Sign) → is_ordered s ≡ true → fits above s above ≡ true
ends_above s o = ground arith

ends_below : (s : Sign) → is_ordered s ≡ true → fits s below below ≡ true
ends_below s o = ground arith

compare_lists_of-IsOrder : IsOrder compare_lists_of
compare_lists_of-IsOrder = record { swapped = swap; ordered = never_nan; transitive = fit }
  where
    identifiers : IsOrder (compare_lists compare_exactly)
    identifiers = compare_lists-IsOrder compare_exactly compare_exactly-IsOrder

    swap : (x y : List (List ℕ)) → compare_lists_of y x ≡ flip (compare_lists_of x y)
    swap [] [] = refl
    swap [] (b ∷ y) = refl
    swap (a ∷ x) [] = refl
    swap (a ∷ x) (b ∷ y) = identifiers.swapped (a ∷ x) (b ∷ y)

    never_nan : (x y : List (List ℕ)) → is_ordered (compare_lists_of x y) ≡ true
    never_nan [] [] = refl
    never_nan [] (b ∷ y) = refl
    never_nan (a ∷ x) [] = refl
    never_nan (a ∷ x) (b ∷ y) = identifiers.ordered (a ∷ x) (b ∷ y)

    fit :
        (x y z : List (List ℕ))
        → fits (compare_lists_of x y) (compare_lists_of y z) (compare_lists_of x z) ≡ true
    fit [] [] [] = refl
    fit [] [] (c ∷ z) = refl
    fit [] (b ∷ y) [] = refl
    fit [] (b ∷ y) (c ∷ z) = ends_above _ (identifiers.ordered (b ∷ y) (c ∷ z))
    fit (a ∷ x) [] [] = refl
    fit (a ∷ x) [] (c ∷ z) = ground arith
    fit (a ∷ x) (b ∷ y) [] = ends_below _ (identifiers.ordered (a ∷ x) (b ∷ y))
    fit (a ∷ x) (b ∷ y) (c ∷ z) = identifiers.transitive (a ∷ x) (b ∷ y) (c ∷ z)

-- The comparison of versions without its NaN.
abbrev exact_semver : ParsedVersion → ParsedVersion → Sign
exact_semver a b = unless_same (compare_numbers a.major b.major) (
    unless_same (compare_numbers a.minor b.minor)
      (unless_same (compare_numbers a.patch b.patch) (compare_lists_of a.prerelease b.prerelease)))

exact_semver-IsOrder : IsOrder exact_semver
exact_semver-IsOrder = record {
  swapped = λ a b.
      rw
        (
          compare_numbers-IsOrder.swapped a.major b.major,
          compare_numbers-IsOrder.swapped a.minor b.minor,
          compare_numbers-IsOrder.swapped a.patch b.patch,
          compare_lists_of-IsOrder.swapped a.prerelease b.prerelease,
        )
        (ground arith);
  ordered = λ a b. ground (
    arith,
    compare_numbers-IsOrder.ordered a.major b.major,
    compare_numbers-IsOrder.ordered a.minor b.minor,
    compare_numbers-IsOrder.ordered a.patch b.patch,
    compare_lists_of-IsOrder.ordered a.prerelease b.prerelease,
  );
  transitive = λ a b c.
      unless_same-fits (compare_numbers a.major b.major) (compare_numbers b.major c.major)
        (compare_numbers a.major c.major) _ _ _
        (compare_numbers-IsOrder.transitive a.major b.major c.major)
        (unless_same-fits (compare_numbers a.minor b.minor) (compare_numbers b.minor c.minor)
          (compare_numbers a.minor c.minor) _ _ _
          (compare_numbers-IsOrder.transitive a.minor b.minor c.minor)
          (unless_same-fits (compare_numbers a.patch b.patch) (compare_numbers b.patch c.patch)
            (compare_numbers a.patch c.patch) _ _ _
            (compare_numbers-IsOrder.transitive a.patch b.patch c.patch)
            (compare_lists_of-IsOrder.transitive a.prerelease b.prerelease c.prerelease)));
}

abbrev pub is_finite : Number → Bool
is_finite (finite n) = true
is_finite infinite = false

-- No numeric identifier of the prerelease is too large for a double.
abbrev pub is_comparable : ParsedVersion → Bool
is_comparable version = all (λ x. not (is_numeric x) || is_finite (number x)) version.prerelease

compare_identifier-exact :
    (x y : List ℕ)
    → (not (is_numeric x) || is_finite (number x)) ≡ true
    → (not (is_numeric y) || is_finite (number y)) ≡ true
    → compare_identifier x y ≡ compare_exactly x y
unfolding compare_identifier
compare_identifier-exact x y h k = ground arith

compare_lists-exact :
    (xs ys : List (List ℕ))
    → all (λ x. not (is_numeric x) || is_finite (number x)) xs ≡ true
    → all (λ x. not (is_numeric x) || is_finite (number x)) ys ≡ true
    → compare_lists compare_identifier xs ys ≡ compare_lists compare_exactly xs ys
compare_lists-exact [] [] h k = refl
compare_lists-exact [] (y ∷ ys) h k = refl
compare_lists-exact (x ∷ xs) [] h k = refl
compare_lists-exact (x ∷ xs) (y ∷ ys) h k =
    rw
      (
        compare_identifier-exact x y (ground arith) (ground arith),
        compare_lists-exact xs ys (ground arith) (ground arith),
      )
      refl

compare_prereleases-exact :
    (xs ys : List (List ℕ))
    → all (λ x. not (is_numeric x) || is_finite (number x)) xs ≡ true
    → all (λ x. not (is_numeric x) || is_finite (number x)) ys ≡ true
    → compare_prereleases xs ys ≡ compare_lists_of xs ys
compare_prereleases-exact [] [] h k = refl
compare_prereleases-exact [] (y ∷ ys) h k = refl
compare_prereleases-exact (x ∷ xs) [] h k = refl
compare_prereleases-exact (x ∷ xs) (y ∷ ys) h k = compare_lists-exact (x ∷ xs) (y ∷ ys) h k

compare_semver-exact :
    (a b : ParsedVersion)
    → is_comparable a ≡ true
    → is_comparable b ≡ true
    → compare_semver a b ≡ exact_semver a b
unfolding compare_semver
compare_semver-exact a b h k = rw (compare_prereleases-exact a.prerelease b.prerelease h k) refl

-- Comparing versions orders them totally up to equal precedence, where no numeric identifier of their
-- prereleases is too large for a double: a version is the same as itself, swapping two versions turns
-- the sign around, and what the comparisons of a with b and of b with c say fits that of a with c.
pub compare_semver-ordered :
    (a b c : ParsedVersion)
    → is_comparable a ≡ true
    → is_comparable b ≡ true
    → is_comparable c ≡ true
    → (compare_semver a a ≡ same)
      × (compare_semver b a ≡ flip (compare_semver a b))
      × (fits (compare_semver a b) (compare_semver b c) (compare_semver a c) ≡ true)
compare_semver-ordered a b c h k l =
    rw
      (
        compare_semver-exact a a h h,
        compare_semver-exact a b h k,
        compare_semver-exact b a k h,
        compare_semver-exact b c k l,
        compare_semver-exact a c h l,
      )
      (
        self (exact_semver a a) (exact_semver-IsOrder.swapped a a)
            (exact_semver-IsOrder.transitive a a a),
        exact_semver-IsOrder.swapped a b,
        exact_semver-IsOrder.transitive a b c,
      )
  where
    self : (s : Sign) → s ≡ flip s → fits s s s ≡ true → s ≡ same
    self s e f = ground arith
