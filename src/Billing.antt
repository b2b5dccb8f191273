-- ===== src/Billing.antt =====
-- The billing bounded context, `app/billing`: one child for each of its parts.
pub mod Model
pub mod Status
pub mod Session
pub mod Dunning
pub mod Usage
pub mod Quota
pub mod Invoicing
pub mod Json
pub mod Checkout
pub mod Stripe
pub mod Proration
pub mod Endpoints
pub mod Tasks
mod Tests
