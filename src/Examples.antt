-- ===== src/Examples.antt =====
-- Runs of the program's parts on concrete data.
mod Hashing
mod Monitoring
mod Repairing
mod Authenticating
mod Serving
mod Recording
mod Detecting
mod Auditing
mod Driving
mod Backing
