-- ===== src/Examples.antt =====
-- The theorems at concrete inputs, and runs of the definitions.
mod Sorter
mod Caches
mod Files
mod Fitting
mod Whole
mod Roomy
mod Loop
mod Program
mod Accepted
mod Strings
mod Sample
mod Json
mod Labels
mod Tls
mod Server
mod Fetch
mod Connections
