-- ===== src/External.antt =====
-- The crates that the program calls and that are not part of the repository. Each is a record of
-- types and operations, a parameter of every definition that uses it.
pub mod Proto
mod Consensus
mod Verifier
mod Types
mod Host
pub use Consensus.*
pub use Verifier.*
pub use Types.*
pub use Host.*

-- All of them, as one instance argument: `C.x` is the `x` of whichever crate has it.
pub record Crates : Type 1 where
  pub consensus : EthereumConsensus
  pub open consensus use *
  pub verifier : LightClientVerifier consensus
  pub open verifier use *
  pub types : LightClientTypes consensus verifier
  pub open types use *
  pub framework : Framework
  pub open framework use *
