-- ===== src/Versions/Newest.antt =====
-- The release that a check offers is the newest of those that may be offered.
use latchkit.Base.{
  ℕ, ◌≡◌, refl, sym, subst, ◌∙◌, inl, inr, String, Bool, true, false, ◌&&◌, List, [], ◌∷◌, Option,
  none, some, all, not, ◌||◌, is_empty, leb, arith, Bool-cases, Option-cases,
}
use mathlib.Core.List.{Memᴰ}
use latchkit.Versions.Semver.{
  is_numeric, number, is_prerelease_version, ParsedVersion, parse_semver, compare_semver,
  is_major_update,
}
use latchkit.Versions.Releases.{
  ReleaseCandidate, RawRelease, ReleaseResponse, answered, unreachable, ReleaseCheckResult,
  Eligible, eligible_release, eligible, is_offered, parse_release, insert, comes_first, sorted,
  chosen, choose_release, check_releases, response_result,
}
use latchkit.Versions.Order.{is_comparable, is_finite, compare_semver-ordered}

-- Not newer.
abbrev pub at_most : ParsedVersion → ParsedVersion → Bool
at_most a b = comes_first (compare_semver a b)

at_most_self : (a : ParsedVersion) → is_comparable a ≡ true → at_most a a ≡ true
at_most_self a h = ground (arith, (compare_semver-ordered a a a h h h).0)

at_most_trans :
    (a b c : ParsedVersion)
    → is_comparable a ≡ true
    → is_comparable b ≡ true
    → is_comparable c ≡ true
    → at_most a b ≡ true
    → at_most b c ≡ true
    → at_most a c ≡ true
at_most_trans a b c ha hb hc h k =
    let (equal, swapped, fit) = compare_semver-ordered a b c ha hb hc in ground (arith, fit)

at_most_other :
    (a b : ParsedVersion)
    → is_comparable a ≡ true
    → is_comparable b ≡ true
    → at_most a b ≡ false
    → at_most b a ≡ true
at_most_other a b ha hb h =
    let (equal, swapped, fit) = compare_semver-ordered a b b ha hb hb in ground (arith, swapped)

abbrev bounded_by : ParsedVersion → Eligible → Bool
bounded_by version = all (λ item. at_most item.1 version)

abbrev are_comparable : Eligible → Bool
are_comparable = all (λ item. is_comparable item.1)

bounded_by_mono :
    (v w : ParsedVersion) (items : Eligible)
    → is_comparable v ≡ true
    → is_comparable w ≡ true
    → are_comparable items ≡ true
    → at_most v w ≡ true
    → bounded_by v items ≡ true
    → bounded_by w items ≡ true
bounded_by_mono v w [] hv hw c h b = refl
bounded_by_mono v w (item ∷ items) hv hw c h b =
    let rest = bounded_by_mono v w items hv hw (ground arith) h (ground arith) in
    let first = at_most_trans item.1 v w (ground arith) hv hw (ground arith) h in
    ground (arith, rest, first)

-- The first of a list, when it has one, bounds the items.
abbrev leads : Eligible → Eligible → Bool
leads [] [] = true
leads [] (item ∷ items) = false
leads (first ∷ rest) items = bounded_by first.1 items

leads-nothing :
    (version : ParsedVersion) (items : Eligible)
    → leads [] items ≡ true
    → bounded_by version items ≡ true
leads-nothing version [] l = refl
leads-nothing version (other ∷ others) l = cc

insert-comparable :
    (item : ReleaseCandidate × ParsedVersion) (items : Eligible)
    → is_comparable item.1 ≡ true
    → are_comparable items ≡ true
    → are_comparable (insert item items) ≡ true
insert-comparable item [] h c = ground arith
insert-comparable item (other ∷ items) h c = ground (arith, insert-comparable item items h)

insert-leads :
    (item : ReleaseCandidate × ParsedVersion) (before items : Eligible)
    → is_comparable item.1 ≡ true
    → are_comparable before ≡ true
    → are_comparable items ≡ true
    → leads before items ≡ true
    → leads (insert item before) (item ∷ items) ≡ true
insert-leads item [] items h cb ci l =
    ground (arith, at_most_self item.1 h, leads-nothing item.1 items l)
insert-leads item (first ∷ rest) items h cb ci l =
    let hf : is_comparable first.1 ≡ true = ground arith in
    elim (Bool-cases (comes_first (compare_semver first.1 item.1))) [
      | inl e ↦
          ground (arith, at_most_self item.1 h, bounded_by_mono first.1 item.1 items hf h ci e l)
      | inr e ↦ ground (arith, at_most_other first.1 item.1 hf h e)
    ]

sorted-leads :
    (items : Eligible)
    → are_comparable items ≡ true
    → (leads (sorted items) items ≡ true) × (are_comparable (sorted items) ≡ true)
unfolding sorted
sorted-leads [] c = (refl, refl)
sorted-leads (item ∷ items) c =
    let h : is_comparable item.1 ≡ true = ground arith in
    let ci : are_comparable items ≡ true = ground arith in
    let (l, cs) = sorted-leads items ci in
    (insert-leads item (sorted items) items h cs ci l, insert-comparable item (sorted items) h cs)

-- What an eligible release is: one of the list, read with its asset, its version, and on offer.
pub record IsOffered (current : ParsedVersion) (target : String) (raws : List (Option RawRelease))
    (item : ReleaseCandidate × ParsedVersion) : Type 0 where
  pub raw : RawRelease
  pub listed : Memᴰ (some raw) raws
  pub read : parse_release raw target ≡ some item.0
  pub parsed : parse_semver item.0.version ≡ some item.1
  pub offered : is_offered current item.0 item.1 ≡ true

abbrev All : ParsedVersion → String → List (Option RawRelease) → Eligible → Type 0
All current target raws [] = Unit {0}
All current target raws (item ∷ items) =
    IsOffered current target raws item × All current target raws items

is_comparable-release :
    (version : ParsedVersion) → is_prerelease_version version ≡ false → is_comparable version ≡ true
is_comparable-release version h = go version.prerelease h
  where
    go :
        (parts : List (List ℕ))
        → not (is_empty parts) ≡ false
        → all (λ x. not (is_numeric x) || is_finite (number x)) parts ≡ true
    go [] h = refl
    go (part ∷ parts) h = cc

module _ (current : ParsedVersion) (target : String) (raws : List (Option RawRelease)) where
  All-comparable : (items : Eligible) → All current target raws items → are_comparable items ≡ true
  All-comparable [] a = refl
  All-comparable (item ∷ items) (o, a) =
      ground (arith, All-comparable items a, o.offered, is_comparable-release item.1)

  insert-All :
      (item : ReleaseCandidate × ParsedVersion) (items : Eligible)
      → IsOffered current target raws item
      → All current target raws items
      → All current target raws (insert item items)
  insert-All item [] o a = (o, a)
  insert-All item (other ∷ items) o a =
      elim (Bool-cases (comes_first (compare_semver other.1 item.1))) [
        | inl e ↦ rw e (o, a)
        | inr e ↦ rw e (a.0, insert-All item items o a.1)
      ]

  sorted-All :
      (items : Eligible) → All current target raws items → All current target raws (sorted items)
  unfolding sorted
  sorted-All [] a = a
  sorted-All (item ∷ items) a = insert-All item (sorted items) a.0 (sorted-All items a.1)

  eligible_release-IsOffered :
      (raw : Option RawRelease) (item : ReleaseCandidate × ParsedVersion)
      → Memᴰ raw raws
      → eligible_release current target raw ≡ some item
      → IsOffered current target raws item
  unfolding eligible_release
  eligible_release-IsOffered none item m h = cc
  eligible_release-IsOffered (some raw) item m h = elim (Option-cases (parse_release raw target)) [
    | inl p ↦ absurd (ground arith)
    | inr (release, p) ↦ elim (Option-cases (parse_semver release.version)) [
      | inl v ↦ absurd (ground arith)
      | inr (version, v) ↦ elim (Bool-cases (is_offered current release version)) [
        | inl o ↦
            let same : (release, version) ≡ item = ground arith in
            subst (IsOffered current target raws) same
              (record { raw = raw; listed = m; read = p; parsed = v; offered = o })
        | inr o ↦ absurd (ground arith)
      ]
    ]
  ]

  eligible-All :
      (part : List (Option RawRelease))
      → ((raw : Option RawRelease) → Memᴰ raw part → Memᴰ raw raws)
      → All current target raws (eligible current target part).0
  eligible-All [] m = tt
  eligible-All (raw ∷ part) m =
      let rest = eligible-All part (λ r k. m r (Memᴰ.tail k)) in
      elim (Option-cases (eligible_release current target raw)) [
        | inl e ↦ rw e rest
        | inr (item, e) ↦
            rw e (eligible_release-IsOffered raw item (m raw (Memᴰ.head refl)) e, rest)
      ]

-- A release of the list is excluded, or not newer.
abbrev pub is_not_newer : ParsedVersion → String → ParsedVersion → Option RawRelease → Bool
is_not_newer current target best raw = elim (eligible_release current target raw) [
  | none ↦ true
  | some item ↦ at_most item.1 best
]

bounded_by-raws :
    (current best : ParsedVersion) (target : String) (raws : List (Option RawRelease))
    → bounded_by best (eligible current target raws).0 ≡ true
    → all (is_not_newer current target best) raws ≡ true
bounded_by-raws current best target [] b = refl
bounded_by-raws current best target (raw ∷ raws) b =
    elim (Option-cases (eligible_release current target raw)) [
      | inl e ↦ ground (arith, bounded_by-raws current best target raws)
      | inr (item, e) ↦ ground (arith, bounded_by-raws current best target raws)
    ]

-- What is known of the candidate of a choice.
pub record IsNewest (current : ParsedVersion) (target : String) (raws : List (Option RawRelease))
    (result : ReleaseCheckResult) (best : ReleaseCandidate) (version : ParsedVersion) : Type 0 where
  pub eligible : IsOffered current target raws (best, version)
  pub newest : all (is_not_newer current target version) raws ≡ true
  pub major : result.major_update ≡ is_major_update current version

chosen-IsNewest :
    (current : ParsedVersion) (target : String) (raws : List (Option RawRelease)) (items : Eligible)
    (excluded : ℕ) (best : ReleaseCandidate)
    → leads items (eligible current target raws).0 ≡ true
    → All current target raws items
    → (chosen current items excluded).candidate ≡ some best
    → (version : ParsedVersion) × IsNewest current target raws
        (chosen current items excluded)
        best
        version
chosen-IsNewest current target raws [] excluded best l a h = cc
chosen-IsNewest current target raws ((first, version) ∷ items) excluded best l a h =
    let same : first ≡ best = ground arith in
    (
      version,
      subst
          (λ x.
            IsNewest current target raws (chosen current ((first, version) ∷ items) excluded) x
              version)
          same
          (record {
            eligible = a.0;
            newest = bounded_by-raws current version target raws l;
            major = refl;
          }),
    )

choose_release-IsNewest :
    (current : ParsedVersion) (target : String) (raws : List (Option RawRelease))
    (best : ReleaseCandidate)
    → (choose_release current target raws).candidate ≡ some best
    → (version : ParsedVersion) × IsNewest current target raws
        (choose_release current target raws)
        best
        version
unfolding choose_release
choose_release-IsNewest current target [] best h = cc
choose_release-IsNewest current target (raw ∷ raws) best h =
    let found = eligible current target (raw ∷ raws) in
    let all_offered = eligible-All current target (raw ∷ raws) (raw ∷ raws) (λ r m. m) in
    let comparable = All-comparable current target (raw ∷ raws) found.0 all_offered in
    chosen-IsNewest current target (raw ∷ raws) (sorted found.0) found.1 best
      (sorted-leads found.0 comparable).0
      (sorted-All current target (raw ∷ raws) found.0 all_offered) h

response_result-list :
    (current : ParsedVersion) (target : String) (response : ReleaseResponse)
    (best : ReleaseCandidate)
    → (response_result current target response).candidate ≡ some best
    → (status : ℕ) × (raws : List (Option RawRelease)) × (response ≡ answered status (some raws))
      × ((leb 200 status && leb status 299) ≡ true)
      × (response_result current target response ≡ choose_release current target raws)
unfolding response_result
response_result-list current target unreachable best h = cc
response_result-list current target (answered status none) best h = ground arith
response_result-list current target (answered status (some raws)) best h =
    (status, raws, refl, ground arith, ground arith)

-- A candidate that a check gives is what a release reads as that stands in a list which the source
-- answered with a status of success; it is no draft, no prerelease and newer than the current version,
-- no release of the list that could be offered is newer, and it is marked as a major update exactly when
-- its major version is higher.
pub check_releases-IsNewest :
    (current_version target : String) (response : ReleaseResponse) (result : ReleaseCheckResult)
    (best : ReleaseCandidate)
    → check_releases current_version target response ≡ some result
    → result.candidate ≡ some best
    → (current : ParsedVersion) × (status : ℕ) × (raws : List (Option RawRelease))
      × (version : ParsedVersion) × (parse_semver current_version ≡ some current)
      × (response ≡ answered status (some raws))
      × ((leb 200 status && leb status 299) ≡ true)
      × IsNewest current target raws result best version
unfolding check_releases
check_releases-IsNewest current_version target response result best h c =
    elim (Option-cases (parse_semver current_version)) [
      | inl p ↦ ground arith
      | inr (current, p) ↦
          let same : response_result current target response ≡ result = ground arith in
          let (status, raws, answer, success, choice) =
            response_result-list current target response best
              (subst (λ x. x.candidate ≡ some best) (sym same) c) in
          let (version, newest) =
            choose_release-IsNewest current target raws best
              (subst (λ x. x.candidate ≡ some best) (sym same ∙ choice) c) in
          (
            current,
            status,
            raws,
            version,
            p,
            answer,
            success,
            subst (λ x. IsNewest current target raws x best version) (sym choice ∙ same) newest,
          )
    ]
