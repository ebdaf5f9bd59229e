-- ===== src/Game.antt =====
-- The battleground server, game/LoongBgSrv.
pub mod Package
pub mod Note
pub mod Base
pub mod Body
pub mod Buf
pub mod Player
pub mod Battleground
pub mod JoinTimes
pub mod Schedule
pub mod DropItem
pub mod Flower
pub mod UseItem
pub mod Skill
pub mod Server
