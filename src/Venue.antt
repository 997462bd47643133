-- ===== src/Venue.antt =====
-- The venue model, class `VenueBook` (common/venue_book.py, common/foreign_legs.py).
pub mod Foreign
pub mod Legs
pub mod Sync
pub mod External
pub mod Opening
pub mod Protective
pub mod Closing
pub mod Unloaded
pub mod Apply
pub mod Orders
pub mod Load
pub mod Found
pub mod Queries
