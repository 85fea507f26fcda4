-- ===== src/Tests.antt =====
-- Runs of the program on concrete inputs, by its parts.
mod Fixtures
mod Sending
mod Receiving
mod Framing
mod Accepting
mod Reading
mod Running
mod Sessions
mod Meeting
mod Serving
mod Hopping
mod Living
mod Mailing
