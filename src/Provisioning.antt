-- ===== src/Provisioning.antt =====
-- server/app/routers/provisioning.py: the challenge, and the enrollment that answers it.
pub mod Challenge
pub mod Finish
pub mod Enroll
pub mod Moves
pub mod EnrollMoves
pub mod Success
pub mod Effect
pub mod OneUse
pub mod Exclusive
pub mod Ready
pub mod WrongProof
pub mod Identity
pub mod Honest
pub mod Capable
