-- ===== src/Tests.antt =====
-- Runs of the model on concrete inputs, each by the theorem that it is an example of.
mod Samples
mod Engine
mod Merging
mod Checkpoint
mod Core
mod Layers
mod Repo
mod Contents
mod Transactions
mod Edits
