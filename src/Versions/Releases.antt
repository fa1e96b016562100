-- ===== src/Versions/Releases.antt =====
-- installation/updates/release-source.ts: reading the releases that the source lists, and choosing one.
-- The answer of the source is an argument, as `boundedFetch` gives it; a field of another type than the
-- expected one is `none`. The result's texts for the reader, its time and its source are left out.

use latchkit.Base.{
  ℕ, suc, String, Bool, true, false, not, ◌&&◌, ◌||◌, List, [], ◌∷◌, Option, none, some, find, eqb,
  leb, codes, strip_prefix, concat, is_some, ◌==◌, if◌then◌else◌,
}
use latchkit.Versions.Semver.{
  Sign, above, ParsedVersion, parse_semver, compare_semver, is_prerelease_version, is_major_update,
  is_downgrade_or_same,
}

pub record ReleaseAsset : Type 0 where
  pub name : String
  pub url : String
  pub size : Option ℕ

pub record ReleaseCandidate : Type 0 where
  pub version : String
  pub tag : String
  pub draft : Bool
  pub prerelease : Bool
  pub published_at : Option String
  pub notes_url : Option String
  pub notes : String
  pub asset : Option ReleaseAsset

pub record RawAsset : Type 0 where
  pub name : Option String
  pub browser_download_url : Option String
  pub size : Option ℕ

pub record RawRelease : Type 0 where
  pub tag_name : Option String
  pub draft : Bool
  pub prerelease : Bool
  pub published_at : Option String
  pub html_url : Option String
  pub body : Option String
  pub assets : List RawAsset

abbrev pub expected_asset_name : String → String → String
expected_asset_name version target = concat (
    "latchkit-"
    ∷ version
    ∷ "-"
    ∷ target
    ∷ (if is_some (strip_prefix (codes "win32-") (codes target)) then ".zip" else ".tar.gz")
    ∷ [])

-- `replace(/^v/, '')`.
abbrev without_v : String → String
without_v tag = elim (strip_prefix (codes "v") (codes tag)) [ none ↦ tag | some rest ↦ tail_of tag ]
  where
    tail_of : String → String
    tail_of String.[] = ""
    tail_of (String.◌∷◌ c s) = s

abbrev or_empty : Option String → String
or_empty none = ""
or_empty (some text) = text

abbrev has_name : String → RawAsset → Bool
has_name expected asset = elim asset.name [ none ↦ false | some name ↦ name == expected ]

abbrev release_asset : String → Option RawAsset → Option ReleaseAsset
release_asset expected none = none
release_asset expected (some asset) = elim asset.browser_download_url [
  | none ↦ none
  | some url ↦ some (record { name = expected; url = url; size = asset.size })
]

abbrev candidate_of : RawRelease → String → String → String → ReleaseCandidate
candidate_of release tag version target = record {
  version = version;
  tag = tag;
  draft = release.draft;
  prerelease = release.prerelease;
  published_at = release.published_at;
  notes_url = release.html_url;
  notes = or_empty release.body;
  asset =
      release_asset (expected_asset_name version target)
        (find (has_name (expected_asset_name version target)) release.assets);
}

unfoldable pub parse_release : RawRelease → String → Option ReleaseCandidate
parse_release release target = elim release.tag_name [
  | none ↦ none
  | some tag ↦ if tag == "" then none else elim (parse_semver (without_v tag)) [
    | none ↦ none
    | some version ↦ some (candidate_of release tag (without_v tag) target)
  ]
]

abbrev pub is_offered : ParsedVersion → ReleaseCandidate → ParsedVersion → Bool
is_offered current release version =
    not (release.draft || (release.prerelease || is_prerelease_version version))
    && not (is_downgrade_or_same current version)

-- A release with its version, or none where it is excluded. What is no object is `none`.
unfoldable pub eligible_release :
    ParsedVersion → String → Option RawRelease → Option (ReleaseCandidate × ParsedVersion)
eligible_release current target none = none
eligible_release current target (some raw) = elim (parse_release raw target) [
  | none ↦ none
  | some release ↦ elim (parse_semver release.version) [
    | none ↦ none
    | some version ↦ if is_offered current release version then some (release, version) else none
  ]
]

abbrev pub Eligible : Type 0
Eligible = List (ReleaseCandidate × ParsedVersion)

abbrev pub add_eligible : Option (ReleaseCandidate × ParsedVersion) → Eligible × ℕ → Eligible × ℕ
add_eligible none (items, excluded) = (items, suc excluded)
add_eligible (some item) (items, excluded) = (item ∷ items, excluded)

-- The eligible releases in their order, and the number of the others.
abbrev pub eligible : ParsedVersion → String → List (Option RawRelease) → Eligible × ℕ
eligible current target [] = ([], 0)
eligible current target (raw ∷ raws) =
    add_eligible (eligible_release current target raw) (eligible current target raws)

abbrev pub comes_first : Sign → Bool
comes_first above = false
comes_first _ = true

-- `sort`, which is stable, and for which NaN is 0: an item stays before those that do not come before
-- it.
abbrev pub insert : ReleaseCandidate × ParsedVersion → Eligible → Eligible
insert item [] = item ∷ []
insert item (other ∷ items) =
    let rest = insert item items in
    if comes_first (compare_semver other.1 item.1) then item ∷ other ∷ items else other ∷ rest

unfoldable pub sorted : Eligible → Eligible
sorted [] = []
sorted (item ∷ items) = insert item (sorted items)

pub data ReleaseCheckOutcome : Type 0 where
  no_releases offline rate_limited missing_asset current_release update_available :
      ReleaseCheckOutcome

pub record ReleaseCheckResult : Type 0 where
  pub outcome : ReleaseCheckOutcome
  pub candidate : Option ReleaseCandidate
  pub major_update : Bool
  pub excluded_count : ℕ

abbrev pub without_candidate : ReleaseCheckOutcome → ℕ → ReleaseCheckResult
without_candidate outcome excluded = record {
  outcome = outcome;
  candidate = none;
  major_update = false;
  excluded_count = excluded;
}

abbrev asset_outcome : Option ReleaseAsset → ReleaseCheckOutcome
asset_outcome none = missing_asset
asset_outcome (some asset) = update_available

abbrev pub chosen : ParsedVersion → Eligible → ℕ → ReleaseCheckResult
chosen current [] excluded = without_candidate current_release excluded
chosen current ((best, version) ∷ items) excluded = record {
  outcome = asset_outcome best.asset;
  candidate = some best;
  major_update = is_major_update current version;
  excluded_count = excluded;
}

unfoldable pub choose_release :
    ParsedVersion → String → List (Option RawRelease) → ReleaseCheckResult
choose_release current target [] = without_candidate no_releases 0
choose_release current target (raw ∷ raws) =
    let (items, excluded) = eligible current target (raw ∷ raws) in
    chosen current (sorted items) excluded

-- No answer, or a status with the list in the body: `none` where the body is no JSON, and the empty list
-- where it is no list.
pub data ReleaseResponse : Type 0 where
  unreachable : ReleaseResponse
  answered : ℕ → Option (List (Option RawRelease)) → ReleaseResponse

abbrev pub body_result :
    ParsedVersion → String → Option (List (Option RawRelease)) → ReleaseCheckResult
body_result current target none = without_candidate offline 0
body_result current target (some raws) = choose_release current target raws

unfoldable pub response_result : ParsedVersion → String → ReleaseResponse → ReleaseCheckResult
response_result current target unreachable = without_candidate offline 0
response_result current target (answered status body) =
    if eqb status 403 || eqb status 429
    then without_candidate rate_limited 0
    else if eqb status 404
    then without_candidate no_releases 0
    else if not (leb 200 status && leb status 299)
    then without_candidate offline 0
    else body_result current target body

-- `none` where the current version is not one, and the source throws.
unfoldable pub check_releases : String → String → ReleaseResponse → Option ReleaseCheckResult
check_releases current_version target response = elim (parse_semver current_version) [
  | none ↦ none
  | some current ↦ some (response_result current target response)
]
