-- ===== src/Examples.antt =====
-- Runs of the development on small inputs.
mod Likes
mod Pipeline
mod Views
mod Accounts
mod Packing
mod Filters
mod Feeds
mod Videos
mod Products
mod Requests
mod Reads
