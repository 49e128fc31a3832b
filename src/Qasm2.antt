-- ===== src/Qasm2.antt =====
-- frontends/qasm2: OpenQASM 2.0 source text to the circuit that the kernel schedules.
pub mod Outcome
pub mod Python
pub mod Tokens
pub mod Tokenizer
pub mod Ends
pub mod Expression
pub mod Parser
pub mod Sound
