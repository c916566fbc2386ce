-- ===== src/Tests.antt =====
-- Runs of the model on fixed inputs, and an instance of every theorem of the list in Lib.antt.
pub mod Samples
pub mod Readers
pub mod Writers
pub mod Device
pub mod Requests
pub mod Programs
pub mod Answers
pub mod Endings
pub mod Dtls
