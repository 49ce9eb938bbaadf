-- ===== src/Examples.antt =====
-- Runs of the clients in packages/client/src and of the demo in examples/actioncable-demo/frontend on
-- concrete inputs.
pub mod Toy
pub mod Values
pub mod Widgets
pub mod Queues
pub mod Sessions
pub mod Providers
pub mod Consumers
pub mod Cast
pub mod Scripts
pub mod Histories
