-- ===== src/Devtools.antt =====
-- lib/devtoolsproxy/proxy.go: the manager of the upstream URL with its subscribers, and the filter
-- of the restricted endpoint.
pub mod Upstream
pub mod Latest
pub mod Filter
pub mod Filtering
mod Examples
