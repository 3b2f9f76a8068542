-- ===== src/Runner.antt =====
-- pilatus-rt/src/device.rs: the runner, which spawns the devices of the active recipe and waits for the
-- selection of the next one.
mod Defs
mod Steps
mod Progress
mod Rounds
mod Ends
mod Shutdown
mod Tests
