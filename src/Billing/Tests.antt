-- ===== src/Billing/Tests.antt =====
-- Concrete rows, and the theorems of the billing context at them.
mod Data
mod Schedules
mod Invoices
mod Events
mod Calls
mod Intake
mod Scope
