-- ===== src/Bindings.antt =====
-- src/py.rs: the Python class of a connection, its guards, and the conversion of errors. What starts an
-- asynchronous call returns the future that it hands to the runtime, as data.
pub mod Exceptions
pub mod Connection
pub mod Guards
pub mod Sends
pub mod Connects
pub mod Futures
