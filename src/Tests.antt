-- ===== src/Tests.antt =====
-- Runs of the definitions at small inputs, and each theorem with hypotheses at an input that
-- meets them.
mod Lists
mod Maps
mod Batches
mod Workers
mod Servers
mod Trainings
mod Optims
mod Gradients
mod Increments
mod Orders
