-- ===== src/Domain.antt =====
-- engine-core/src/domain: the data model of process definitions and tokens.
pub mod Error
pub mod Timer
pub mod Json
pub mod Element
pub mod Token
pub mod Definition
