-- ===== src/A11y/Flags.antt =====
-- The audit flags of internal/a11y/engine.go.
use inwheel_server.Prelude.{true, false, some, ◌≡◌, ◌≢◌, ◌↔◌, arith}
use inwheel_server.Prelude.Dict.{member}
use inwheel_server.Models.Profile.{EntranceProps, AccessibilityProfile}
use inwheel_server.A11y.{entrance_flags, with_audit_flags, flag_entrance_no_level_route}

-- An entrance is flagged for its route exactly when it is known not to be level and neither kind of
-- ramp is known to exist: an unknown level raises no flag, an unknown ramp counts as none.
pub no_level_route_iff :
    (p : EntranceProps)
    → (member flag_entrance_no_level_route (entrance_flags p) ≡ true) ↔ (
        (p.is_level ≡ some false)
        × (p.has_fixed_ramp ≢ some true)
        × (p.has_removable_ramp ≢ some true))
unfolding entrance_flags member
no_level_route_iff p = ground arith

-- Computing the flags of a profile a second time changes nothing.
pub with_audit_flags_idempotent :
    (p : AccessibilityProfile) → with_audit_flags (with_audit_flags p) ≡ with_audit_flags p
unfolding with_audit_flags
with_audit_flags_idempotent p = ground arith
