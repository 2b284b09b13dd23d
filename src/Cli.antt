-- ===== src/Cli.antt =====
-- cli/cli.cpp: parts of the command line client.
pub mod Repositories
pub mod Upgradable
