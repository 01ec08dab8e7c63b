-- ===== src/Access.antt =====
-- Who may do what: backend/internal/http/middleware, backend/internal/http/org_scope.go and the roles of
-- backend/internal/services/agentauth/token.go.
pub mod Token
pub mod Scope
pub mod Isolation
mod Tests
