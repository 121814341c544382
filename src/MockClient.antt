-- ===== src/MockClient.antt =====
-- tools/wowsim/mock_client.py: traffic generation, the client's loop, and the spawning of clients.
pub mod Traffic
pub mod Run
pub mod Spawn
pub mod Format
