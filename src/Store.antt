-- ===== src/Store.antt =====
-- services/darta-chalani/internal/db: the rows, the tables and the queries of the service's database.
pub mod Types
pub mod Exec
pub mod Steady
pub mod Yields
pub mod Table
pub mod Checks
pub mod Distinct
pub mod Dartas
pub mod Creation
pub mod Reads
pub mod History
pub mod Valid
pub mod Listing
pub mod Linked
pub mod Applicants
pub mod Recipients
pub mod Attachments
pub mod Audit
pub mod Relationships
pub mod Chalanis
