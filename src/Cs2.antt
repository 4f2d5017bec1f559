-- ===== src/Cs2.antt =====
-- core/cs2 and core/cs2_gc: what the program computes for the game itself.
pub mod FriendCode
pub mod Kv
