-- ===== src/Database/Scopes.antt =====
-- database/db.go: NotificationScopes and its integer form.
use go_openbmclapi.Prelude.{
  ℕ, ◌/◌, ◌%◌, ◌≡◌, String, Bool, true, List, [], ◌∷◌, arith, ◌==◌, if◌then◌else◌, not,
}
use go_openbmclapi.Prelude.Eq.{string_eq}
use Prim.Native.Nat.{bit_or}

pub record NotificationScopes : Type 0 where
  pub disabled : Bool
  pub enabled : Bool
  pub sync_begin : Bool
  pub sync_done : Bool
  pub updates : Bool
  pub daily_report : Bool

abbrev pub ns_flag_disabled : ℕ
ns_flag_disabled = 1

abbrev pub ns_flag_enabled : ℕ
ns_flag_enabled = 2

abbrev pub ns_flag_sync_done : ℕ
ns_flag_sync_done = 4

abbrev pub ns_flag_updates : ℕ
ns_flag_updates = 8

abbrev pub ns_flag_daily_report : ℕ
ns_flag_daily_report = 16

abbrev pub ns_flag_sync_begin : ℕ
ns_flag_sync_begin = 32

-- if b { v |= flag }
abbrev or_if : Bool → ℕ → ℕ → ℕ
or_if b flag v = if b then bit_or v flag else v

pub to_int64 : NotificationScopes → ℕ
to_int64 ns = or_if ns.daily_report ns_flag_daily_report (
    or_if ns.updates ns_flag_updates (
      or_if ns.sync_done ns_flag_sync_done (
        or_if ns.sync_begin ns_flag_sync_begin
          (or_if ns.enabled ns_flag_enabled (or_if ns.disabled ns_flag_disabled 0)))))

-- v & flag != 0, for a flag of one bit: that bit of v.
abbrev has_flag : ℕ → ℕ → Bool
has_flag v flag = not (v / flag % 2 == 0)

pub from_int64 : ℕ → NotificationScopes
from_int64 v = record {
  disabled = has_flag v ns_flag_disabled;
  enabled = has_flag v ns_flag_enabled;
  sync_begin = has_flag v ns_flag_sync_begin;
  sync_done = has_flag v ns_flag_sync_done;
  updates = has_flag v ns_flag_updates;
  daily_report = has_flag v ns_flag_daily_report;
}

-- One name of FromStrings; other names change nothing.
set_scope : String → NotificationScopes → NotificationScopes
set_scope s ns =
    if string_eq.test s "disabled"
    then record ns { disabled = true }
    else if string_eq.test s "enabled"
    then record ns { enabled = true }
    else if string_eq.test s "syncbegin"
    then record ns { sync_begin = true }
    else if string_eq.test s "syncdone"
    then record ns { sync_done = true }
    else if string_eq.test s "updates"
    then record ns { updates = true }
    else if string_eq.test s "dailyreport"
    then record ns { daily_report = true }
    else ns

pub from_strings : List String → NotificationScopes → NotificationScopes
from_strings [] ns = ns
from_strings (s ∷ rest) ns = from_strings rest (set_scope s ns)

-- Scopes that are written as an integer and read back are the same scopes.
pub from_int64-to_int64 : (ns : NotificationScopes) → from_int64 (to_int64 ns) ≡ ns
unfolding from_int64 to_int64
from_int64-to_int64 ns = ground arith

-- An integer that is read as scopes and written back keeps its six low bits, and no others.
pub to_int64-from_int64 : (v : ℕ) → to_int64 (from_int64 v) ≡ v % 64
unfolding from_int64 to_int64
to_int64-from_int64 v = ground arith
