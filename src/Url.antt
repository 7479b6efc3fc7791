-- ===== src/Url.antt =====
-- src/connection_url_resolver/url_resolver.go: from the URL of a database to a configuration.
pub mod Text
pub mod Scheme
pub mod Resolver
pub mod Written
pub mod Parts
pub mod Accepts
mod Runs
