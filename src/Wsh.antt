-- ===== src/Wsh.antt =====
-- 02-unix-shell-wsh: the shell, its alias table, its history and its parsers.
pub mod HashMap
pub mod DynamicArray
pub mod Text
pub mod Parse
pub mod Builtins
pub mod Line
mod Tests
