-- ===== src/Booking.antt =====
-- app/application/booking.py: `BookingService`, one module for each part of it.
pub mod Idempotency
pub mod Create
pub mod Issue
pub mod Settle
pub mod Ledger
pub mod Concurrent
mod Tests
mod CreateTests
