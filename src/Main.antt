-- ===== src/Main.antt =====
-- main.go: the node program's own functions. Flags, host set-up, connections and printing are
-- calls of libraries.
pub mod Addresses
pub mod Keys
pub mod Messages
pub mod Program
pub mod Printing
