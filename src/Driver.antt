-- ===== src/Driver.antt =====
-- src/driver.rs: the connection driver.
pub mod Wire
pub mod State
pub mod Task
pub mod Publish
pub mod Leads
pub mod Close
pub mod Admission
pub mod Reader
pub mod Receive
pub mod Writer
pub mod View
pub mod Order
pub mod Logic
pub mod Store
pub mod System
pub mod Solo
