-- ===== src/Cdk.antt =====
-- The calls that the program makes of aws_cdk, as data. What aws_cdk itself does with them is not
-- under the repository: the values that it returns are the parameter `Cdk`.
mod Library
mod Compute
mod Resources
mod Calls
pub mod Log
pub mod Sample
pub use Library.*
pub use Compute.*
pub use Resources.*
pub use Calls.*
