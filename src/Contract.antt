-- ===== src/Contract.antt =====
-- packages/contract/src: the vocabulary that the server and the clients share.
pub mod Errors
pub mod Permissions
