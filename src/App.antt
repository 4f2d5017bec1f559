-- ===== src/App.antt =====
-- app/: the parts of the application's state that run beside the user interface.
pub mod VaultSaver
pub mod VaultRegistry
pub mod JobPump
