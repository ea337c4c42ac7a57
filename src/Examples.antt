-- ===== src/Examples.antt =====
-- The theorems at concrete inputs, and tests.
mod Pool
mod Manager
mod Reading
mod Conns
mod Life
mod Strings
mod Requests
mod Client
mod Serving
mod Broken
mod Ending
mod Responses
