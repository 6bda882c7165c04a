-- ===== src/Tests.antt =====
-- Runs at concrete inputs: tests of the definitions, and the theorems applied where their hypotheses
-- hold.
mod Positions
mod Edits
mod Managers
mod Store
mod Deltas
mod Caches
mod Css
mod Sessions
mod Urls
mod Editing
