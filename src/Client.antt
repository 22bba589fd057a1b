-- ===== src/Client.antt =====
-- The userspace client (Client): the parts around the monitors' loops. A string is the list of its
-- 16-bit characters, as wchar_t is on the systems that the client is built for.
pub mod Url
pub mod Options
pub mod Analyzer
pub mod Element
pub mod EventController
pub mod Server
pub mod ServerReceive
pub mod Visitor
pub mod FileUploader
pub mod Exclusions
pub mod Paths
pub mod ProcessManager
pub mod Prefix
pub mod FileMonitor
pub mod RegistryMonitor
pub mod ProcessMonitor
pub mod Bulk
