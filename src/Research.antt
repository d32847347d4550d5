-- ===== src/Research.antt =====
-- src/research: the tracker of information coefficients.
pub mod Ic
