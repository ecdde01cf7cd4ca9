-- ===== src/Server.antt =====
-- httpd.c: the options of the program, its start, and the loop over connections.
pub mod Options
pub mod Samples
pub mod Loop
pub mod Listeners
pub mod Start
