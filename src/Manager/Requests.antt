-- ===== src/Manager/Requests.antt =====
-- Which requests the operations of the manager send: an invariant of the server's state that the
-- listed kinds of request preserve is kept by the operation.
pub mod Reading
pub mod Groups
pub mod Accounts
pub mod Creation
