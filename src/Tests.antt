-- ===== src/Tests.antt =====
-- Concrete runs of the model, and each headline theorem at an input that meets its hypotheses.
mod Format
mod Fixtures
mod Setting
mod Access
mod Writes
mod Outcomes
mod Boot
mod Pages
mod History
mod Held
mod Schema
mod Process
mod Order
