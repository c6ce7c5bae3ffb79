-- ===== src/Examples.antt =====
-- Concrete inputs for the theorems, and tests.
mod SmallEngine
mod Bridge
mod Jobs
mod Race
mod Cutils
mod DynBuf
mod JobQueue
mod CharRange
mod LineTables
mod Maps
mod Lookup
mod CString
mod Dates
mod Promises
mod Keys
