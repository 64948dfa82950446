-- ===== src/Float.antt =====
-- Python's `float`, as the operations that the program makes on it. The program's numbers are IEEE
-- doubles, so the type and its arithmetic are a parameter; what a proof relies on is a law of
-- `IsOrdered`, which doubles have, NaN among them.
mod Interface
mod Fixed
pub use Interface.*
pub use Fixed.{Micro, micro, micro_float, Micro-IsOrdered}
