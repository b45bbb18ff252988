-- ===== src/Pkg.antt =====
-- The packages under pkg/.
pub mod TextUtil
pub mod Retry
pub mod Glob
pub mod EmlParse
