-- ===== src/Bond.antt =====
-- src/netlink/nl_bond.cc and nl_bond.h, class nl_bond: the link aggregation groups (LAGs) that stand
-- for bonds, and their member ports. Built with HAVE_RTNL_LINK_BOND_GET_MODE.
pub mod State
pub mod Methods
pub mod Lags
pub mod Members
mod Tests
