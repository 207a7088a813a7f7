-- ===== src/Product.antt =====
-- internal/domain/product: how a SKU must be handled, and which hazard classes may share a bin.
pub mod Classification
pub mod Segregation
