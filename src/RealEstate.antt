-- ===== src/RealEstate.antt =====
-- missions/real_estate: the listings of the real-estate mission, their inventory, the detector of
-- diverging prices, and the queue in which its findings are reviewed.
pub mod Listing
pub mod Inventory
pub mod Anomalies
pub mod Review
pub mod Tests
