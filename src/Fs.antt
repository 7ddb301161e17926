-- ===== src/Fs.antt =====
-- cloudfs/: the file system, the cloud calls that it makes and its locks.
pub mod Names
pub mod Options
pub mod Os
pub mod State
pub mod Disk
pub mod Laws
pub mod Memory
pub mod Lock
pub mod Cloud
pub mod Buckets
pub mod Files
pub mod Attrs
pub mod Dirs
pub mod Requests
pub mod Start
pub mod Cloudlock
pub mod Details
pub mod Recorder
pub mod CloudExample
pub mod LockWire
