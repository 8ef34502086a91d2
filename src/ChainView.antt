-- ===== src/ChainView.antt =====
-- common/src/chain_view: the read side of the canonical chain.
pub mod Full
pub mod Represents
pub mod Stream
pub mod Fresh
pub mod Publish
pub mod View
pub mod Bounds
pub mod Sync
pub mod Synced
mod Tests
