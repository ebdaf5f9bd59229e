-- ===== src/Boss.antt =====
-- The boss server, game/bosssrv: everybody fights one boss.
pub mod HurtMgr
pub mod UrlEncode
pub mod Server
