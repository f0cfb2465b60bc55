-- ===== src/Permissions.antt =====
-- The remembered permission answers (session_permissions.go).
use tacklr.Base.{
  Bool, true, Option, some, Bytes, Dict, lookup, insert, [], ◌≡◌, arith, text_eq, if◌then◌else◌,
  lookup-insert,
}

pub data Decision : Type 0 where
  none_yet allow_always deny_always : Decision

-- `granted` is the host's `AllowTools`.
pub record Permissions : Type 0 where
  pub decisions : Dict Decision
  pub granted : Dict Bool

pub new_permissions : Permissions
new_permissions = record { decisions = []; granted = [] }

abbrev pub granted_decision : Option Bool → Decision
granted_decision (some true) = allow_always
granted_decision _ = none_yet

-- A missing key reads as `permNone`.
abbrev pub decided : Option Decision → Decision → Decision
decided (some allow_always) _ = allow_always
decided (some deny_always) _ = deny_always
decided _ granted = granted

-- `permissions.Decision`
unfoldable pub decision : Permissions → Bytes → Decision
decision p name = decided (lookup name p.decisions) (granted_decision (lookup name p.granted))

-- `permissions.set`
unfoldable pub set_decision : Permissions → Bytes → Decision → Permissions
set_decision p name d = record p { decisions = insert name d p.decisions }

-- `permissions.restore`
unfoldable pub restore_decisions : Permissions → Dict Decision → Permissions
restore_decisions p decisions = record p { decisions = decisions }

-- The answer after one is recorded: the recorded one for its tool, where "no answer" uncovers the
-- host's grant, and unchanged for every other tool.
pub decision-set_decision :
    (p : Permissions) (name asked : Bytes) (d : Decision)
    → decision (set_decision p name d) asked ≡ (
        if text_eq name asked
        then decided (some d) (granted_decision (lookup asked p.granted))
        else decision p asked)
unfolding decision set_decision
decision-set_decision p name asked d = ground (arith, lookup-insert name asked d p.decisions)
