-- ===== src/Examples.antt =====
-- The concrete cluster of the runs below: two nodes, a pod that asks for two gpus of a model, one
-- worker, and two watchers.
mod Cluster
mod Serving
mod Deciding
mod Watching
mod Marking
mod Reporting
mod Keeping
mod Syncing
mod Streaming
mod Agent
mod Starting
mod Equality
mod Looping
mod Racing
mod Ending
mod Holding
