-- ===== src/Auth.antt =====
-- apps/auth-service: refresh tokens, their rotation, the detection of reuse, logins, registration,
-- sign-in with a provider, and the keys that sign access tokens.
pub mod Tokens
pub mod Store
pub mod Refresh
pub mod Login
pub mod Names
pub mod Transactions
pub mod Register
pub mod OauthTables
pub mod Oauth
pub mod KeyTable
pub mod Keys
pub mod ProviderTokens
