-- ===== src/Tests.antt =====
-- Runs of the model on concrete input, and the theorems at inputs that meet their hypotheses.
mod ConfigFile
mod ConfigTheorems
mod HashTheorems
mod Access
mod Permissions
mod Jobs
mod Texts
mod Paths
mod Users
mod Logins
mod Files
mod Lists
mod Hosts
mod Added
mod Table
