-- ===== src/Bits.antt =====
-- `&` and `|` on unsigned words of any width, by fields: a word is cut at bit `k` into
-- `x / 2 ^ k` and `x % 2 ^ k`, and both operations go through the cut.
mod Step
pub mod Fields
pub mod Disjoint
