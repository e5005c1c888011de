-- ===== src/Web.antt =====
-- web/src and web/editor: the browser side.
pub mod Metrics
pub mod Modals
pub mod PortRows
pub mod NewWorkload
pub mod Streams
pub mod Format
pub mod Tabs
pub mod Theme
pub mod Editor
pub mod Terminal
pub mod Unsaved
pub mod Confirm
pub mod Dialogs
