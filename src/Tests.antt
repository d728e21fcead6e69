-- ===== src/Tests.antt =====
-- The theorems at concrete inputs, and runs of the code on some.
mod Runs
mod Signatures
mod Configurations
mod Registries
mod Texts
mod Documents
mod Systems
mod Requests
mod Files
mod Forums
mod Pollings
mod Startups
mod Web
