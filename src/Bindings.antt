-- ===== src/Bindings.antt =====
-- internal/api/v1/server.gen.go, which oapi-codegen has generated from api/openapi.yaml.
pub mod Params
pub mod Responses
pub mod Wrapper
pub mod Strict
pub mod Spec
pub mod Enums
