-- ===== src/Tests.antt =====
-- Applications of the main theorems to concrete inputs.
mod Data
mod Applied
mod Legs
mod Orders
mod Loads
mod Records
mod Pacing
mod Bars
mod Histories
mod Balance
mod Frames
mod Holds
