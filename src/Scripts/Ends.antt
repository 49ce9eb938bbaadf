-- ===== src/Scripts/Ends.antt =====
-- The loops over a frame of the scripts in examples/actioncable-demo/frontend come to an end.
pub mod Rounds
pub mod Messages
