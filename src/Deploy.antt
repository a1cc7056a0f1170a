-- ===== src/Deploy.antt =====
-- Release packages: the checks and the swap of app/engine/deployer.py.

pub mod Members
pub mod Package
pub mod Contained
pub mod Swap
pub mod Live
pub mod Verified
pub mod Staged
