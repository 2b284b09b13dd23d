-- ===== src/Utils.antt =====
-- libs/utils: the helpers that the components share.
pub mod Transaction
