-- ===== src/Kernel.antt =====
-- What the driver uses of the kernel's headers and cannot be read here: the operations are
-- arguments of the model, and what the code relies on is a record of laws about them.
pub mod Seq
pub mod Idr
pub mod Linux
pub mod Table
