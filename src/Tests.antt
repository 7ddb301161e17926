-- ===== src/Tests.antt =====
-- Runs of the model on concrete inputs.
mod Rabin
mod Fs
mod Files
mod Requests
mod Recorder
mod Shared
mod CloudExample
mod LockWire
mod Buckets
mod Start
mod Many
mod Details
