-- ===== src/Vm.antt =====
-- cmd/vm/main_linux.go, the program in the guest that carries the frames of a tap device to a
-- connection and back.
pub mod Tap
pub mod Run
mod Tests
