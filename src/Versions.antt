-- ===== src/Versions.antt =====
-- installation/updates/semver.ts and release-source.ts: versions, their order, and the release to offer.
pub mod Semver
pub mod Releases
mod Order
mod Newest
mod Tests
