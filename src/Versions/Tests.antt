-- ===== src/Versions/Tests.antt =====
-- A list of releases: a prerelease, a draft, an older release, and two newer ones.
use latchkit.Base.{
  ℕ, ◌≡◌, refl, String, Bool, true, false, ◌&&◌, List, [], ◌∷◌, Option, none, some, leb, codes,
  replicate,
}
use latchkit.Versions.Semver.{
  ParsedVersion, Number, finite, infinite, same, unordered, to_double, parse_semver, compare_semver,
  compare_identifier, is_numeric, number,
}
use latchkit.Versions.Releases.{
  RawRelease, RawAsset, answered, ReleaseCheckResult, ReleaseCandidate, check_releases,
  response_result, choose_release, eligible_release, parse_release, sorted, update_available,
}
use latchkit.Versions.Order.{flip, fits, compare_semver-ordered}
use latchkit.Versions.Newest.{IsNewest, check_releases-IsNewest}

abbrev raw : String → Bool → List RawAsset → RawRelease
raw tag draft assets = record {
  tag_name = some tag;
  draft = draft;
  prerelease = false;
  published_at = none;
  html_url = none;
  body = none;
  assets = assets;
}

abbrev asset : RawAsset
asset = record {
  name = some "latchkit-2.0.0-linux-x64.tar.gz";
  browser_download_url = some "https://example.org/a";
  size = some 7;
}

abbrev raws : List (Option RawRelease)
raws =
    some (raw "v1.0.9" false [])
    ∷ some (raw "v3.0.0" true [])
    ∷ none
    ∷ some (raw "v1.3.0" false [])
    ∷ some (raw "v2.0.0" false (asset ∷ []))
    ∷ some (raw "v2.1.0-rc.1" false [])
    ∷ []

abbrev best : ReleaseCandidate
best = record {
  version = "2.0.0";
  tag = "v2.0.0";
  draft = false;
  prerelease = false;
  published_at = none;
  notes_url = none;
  notes = "";
  asset = some (record {
    name = "latchkit-2.0.0-linux-x64.tar.gz";
    url = "https://example.org/a";
    size = some 7;
  });
}

abbrev result : ReleaseCheckResult
result = record {
  outcome = update_available;
  candidate = some best;
  major_update = true;
  excluded_count = 4;
}

checks : check_releases "1.2.0" "linux-x64" (answered 200 (some raws)) ≡ some result
unfolding check_releases response_result choose_release eligible_release parse_release sorted
    parse_semver compare_semver compare_identifier is_numeric number to_double
checks = refl

orders :
    compare_identifier (b'1' ∷ b'0' ∷ []) (b'2' ∷ []) ≡ compare_identifier (b'2' ∷ []) (b'1' ∷ [])
unfolding compare_identifier is_numeric number to_double
orders = refl

abbrev digits_309 : List ℕ
digits_309 = replicate 309 b'9'

-- An identifier of 309 digits is not the same as itself.
is_nan : compare_identifier digits_309 digits_309 ≡ unordered
unfolding compare_identifier is_numeric number to_double
is_nan = refl

-- 9007199254740993, the first number between two doubles.
rounds : number (codes "9007199254740993") ≡ finite 9007199254740992
unfolding number to_double
rounds = refl

abbrev version_of : Number → List (List ℕ) → ParsedVersion
version_of patch prerelease = record {
  major = finite 1;
  minor = finite 2;
  patch = patch;
  prerelease = prerelease;
}

abbrev rc_2 : ParsedVersion
rc_2 = version_of (finite 0) (codes "rc" ∷ codes "2" ∷ [])

abbrev rc_10 : ParsedVersion
rc_10 = version_of (finite 0) (codes "rc" ∷ codes "10" ∷ [])

abbrev huge : ParsedVersion
huge = version_of infinite []

compare_semver-ordered_example :
    (compare_semver rc_2 rc_2 ≡ same)
    × (compare_semver rc_10 rc_2 ≡ flip (compare_semver rc_2 rc_10))
    × (fits (compare_semver rc_2 rc_10) (compare_semver rc_10 huge) (compare_semver rc_2 huge)
        ≡ true)
unfolding is_numeric number to_double
compare_semver-ordered_example = compare_semver-ordered rc_2 rc_10 huge refl refl refl

check_releases-IsNewest_example :
    (current : ParsedVersion) × (status : ℕ) × (listed : List (Option RawRelease))
    × (found : ParsedVersion) × (parse_semver "1.2.0" ≡ some current)
    × (answered 200 (some raws) ≡ answered status (some listed))
    × ((leb 200 status && leb status 299) ≡ true)
    × IsNewest current "linux-x64" listed result best found
check_releases-IsNewest_example =
    check_releases-IsNewest "1.2.0" "linux-x64" (answered 200 (some raws)) result best checks refl
