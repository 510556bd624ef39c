-- ===== src/Examples.antt =====
-- The theorems at concrete inputs.
mod Delivery
mod Services
mod Caching
mod Selecting
mod Running
mod Searching
mod Calling
mod Staging
mod Processing
mod Resolving
mod Merging
mod Limiting
mod Measuring
