-- ===== src/Extender.antt =====
-- The handlers of pkg/gpuserver/router/schedulerserver/schedulerserver.go. The json of a request is
-- decoded by the standard library: `none` stands for a body that it refuses.
pub mod Workers
pub mod Places
pub mod Permutation
pub mod Finish
pub mod Handlers
pub mod EndToEnd
