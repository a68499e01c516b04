-- ===== src/Hosts.antt =====
-- include/parser.hpp and include/io/transport/hosts.hpp: the command line, the file of hosts, and the
-- table made of it.
pub mod Text
pub mod Parser
pub mod HostsFile
pub mod Sorting
pub mod Compact
pub mod HostsTable
mod Tests
