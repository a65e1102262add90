-- ===== src/Egress.antt =====
-- internal/egress: which local items may go into a packet, and the explanation of the choice.
-- `FrontierOrdinal` is an integer whose differences do not overflow.
pub mod Kinds
pub mod Classify
pub mod Select
