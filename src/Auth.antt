-- ===== src/Auth.antt =====
-- app/modules/auth/service.py: signing in.
pub mod Attempts
pub mod BruteForce
pub mod Sessions
pub mod Revocation
pub mod Rotation
pub mod StaleTokens
pub mod Stores
pub mod Codes
pub mod Totp
pub mod Accounts
pub mod Login
pub mod Soundness
pub mod Lockout
pub mod WrongPassword
pub mod Recovery
pub mod ResetTokens
pub mod Admission
pub mod SecondFactor
pub mod OneTimeCodes
pub mod SecondStep
pub mod Challenge
pub mod FirstStep
pub mod AppOnly
pub mod Signup
pub mod Tenants
pub mod Onboarding
pub mod FirstSignIn
