-- ===== src/Merge.antt =====
-- packages/template-engine/src/index.ts: how `podo add`, `podo remove` and `podo update` change the
-- files of a project that its owner may have edited.
pub mod ThreeWay
pub mod Markers
mod Tests
