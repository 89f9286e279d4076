-- ===== src/Session.antt =====
-- `RoomSession` of src/keycard/session.py. The event loop runs one task at a time, from one `await`
-- to the next: each such stretch of code is a function on the session, and an interleaving is a
-- list of events, each of which resumes one task or calls one callback. What an `await` gives
-- back (a room, a chunk, an exception) is the event's argument. A room is the number of its handle.
pub mod Types
pub mod Tasks
pub mod Machine
