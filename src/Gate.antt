-- ===== src/Gate.antt =====
-- gate/cmd/gate/main.go: the command that compares two commits and decides.
pub mod Rates
pub mod Roots
pub mod Output
pub mod Run
pub mod PriceOnly
