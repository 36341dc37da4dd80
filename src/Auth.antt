-- ===== src/Auth.antt =====
-- auth/: the OAuth server's state: authorization codes, tokens, PKCE requests, clients and token
-- generations (store/migrations/0005_oauth.sql), and its sign-in.
pub mod Rows
pub mod Generations
pub mod Storage
pub mod Clients
pub mod Active
pub mod Steps
pub mod Allowlist
pub mod Parked
pub mod Signin
pub mod Verify
