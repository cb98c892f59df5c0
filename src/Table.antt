-- ===== src/Table.antt =====
-- frontend/src/app/shared/components/crud-table/crud-table.component.ts: the table that every list
-- of the application is shown in.
pub mod Selection
pub mod Columns
pub mod Rows
mod Tests
