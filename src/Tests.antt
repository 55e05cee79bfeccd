-- ===== src/Tests.antt =====
-- The theorems at concrete inputs, and runs of the model.
mod Samples
mod Channels
mod Drive
mod Settings
mod Connection
mod Sending
mod Receiving
mod Interpreting
mod Importing
mod Binding
