-- ===== src/Package.antt =====
-- libs/linglong/src/linglong/package: versions, architectures and references to packages.
pub mod Numeral
pub mod Qt
pub mod Pattern
pub mod VersionPattern
pub mod Version
pub mod VersionRange
pub mod Architecture
pub mod FuzzyReference
pub mod Reference
pub mod LayerFile
