-- ===== src/Json/Sample.antt =====
-- A sample, as json.c reads it: fields of atop's `struct sstat` and `struct tstat`. An array is the
-- list of its cells, a string what stands before its zero.
mod Host
mod Links
mod Task
pub use Host.*
pub use Links.*
pub use Task.*
