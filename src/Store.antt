-- ===== src/Store.antt =====
-- The database behind the server: tables as lists of rows, statements that may fail, transactions
-- that roll back, and the requests' answers.
pub mod Tables
pub mod Monad
pub mod Steps
pub mod Within
