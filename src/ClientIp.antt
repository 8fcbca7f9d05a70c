-- ===== src/ClientIp.antt =====
-- internal/clientip/clientip.go: which address a request is attributed to. The parsers of package
-- netip and net are a record that every definition takes, as a parameter.
pub mod Resolver
pub mod Spoofing
pub mod Proxies
mod Examples
