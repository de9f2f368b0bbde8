-- ===== src/SiteAssets.antt =====
-- The store of site images: internal/siteassets/store.go.
--
-- SiteAssets.Ico reads the directory of an ICO file, SiteAssets.Images has the rest of the store. A
-- file is its bytes, each below 256, and reading it back does not fail; `image.DecodeConfig`,
-- `strings.ToLower` and the random bytes are parameters.
pub mod Ico
pub mod Entries
pub mod Images
pub mod Names
pub mod Stored
mod Tests
