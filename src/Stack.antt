-- ===== src/Stack.antt =====
-- internal/stack: how a module of the system is judged.
pub mod Health
