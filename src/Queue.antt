-- ===== src/Queue.antt =====
-- app/messagequeue/queue.py: messages, the two backends, and the queue in front of them.
pub mod Json
pub mod Message
pub mod Exec
pub mod Backend
pub mod Memory
pub mod Broker
pub mod Redis
