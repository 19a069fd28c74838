-- ===== src/Service/Access/Lease.antt =====
-- When an account may be used (internal/service/access.go).
use jd_shop_server.Common.{
  ℕ, ◌+◌, ◌-◌, ◌*◌, ◌/◌, Bool, true, false, not, ◌&&◌, ◌≡◌, refl, Option, none, some, ◌==◌, leb,
  ltb, if◌then◌else◌, arith, Bool-cases, Option-cases, inl, inr,
}
use jd_shop_server.Time.{Timestamp, nanos, seconds_per_day, parse_rfc3339, format_rfc3339}
use jd_shop_server.Time.Laws.{parse_rfc3339-format_rfc3339}
use jd_shop_server.Model.{AccountAccess, AccessPolicy, Reason, active, disabled, expired}
use jd_shop_server.Repository.Access.{days_after}
use jd_shop_server.Service.Access.{access_of, apply_expiry, remaining}

-- A full second or more has passed since the second of the expiry.
abbrev pub passed_second : Option ℕ → ℕ → Bool
passed_second none now = false
passed_second (some e) now = leb ((e + 1) * nanos) now

-- The expiry has passed; a text that cannot be read never has.
abbrev pub has_passed : Option Timestamp → ℕ → Bool
has_passed none now = false
has_passed (some t) now = passed_second (parse_rfc3339 t) now

abbrev pub reason_of : ℕ → Bool → Reason
reason_of status passed = if status == 1 then (if passed then expired else active) else disabled

remaining_over : (e now : ℕ) → leb ((e + 1) * nanos) now ≡ true → remaining e now ≡ none
unfolding remaining
remaining_over e now h = ground arith

remaining_left :
    (e now : ℕ) → leb ((e + 1) * nanos) now ≡ false → (s : ℕ) × (remaining e now ≡ some s)
unfolding remaining
remaining_left e now h = elim (Bool-cases (leb now (e * nanos))) [
  | inl before ↦ ((e * nanos - now) / nanos, rw before refl)
  | inr after ↦
      let within : ltb (now - e * nanos) nanos ≡ true = ground arith in (0, rw (after, within) refl)
]

apply_expiry-allowed :
    (access : AccountAccess) (expiry : Option Timestamp) (now : ℕ)
    → access.allowed ≡ true
    → access.reason ≡ active
    → ((apply_expiry access expiry now).allowed ≡ not (has_passed expiry now))
      × ((apply_expiry access expiry now).reason
          ≡ (if has_passed expiry now then expired else active))
unfolding apply_expiry
apply_expiry-allowed access none now on act = (on, act)
apply_expiry-allowed access (some t) now on act = elim (Option-cases (parse_rfc3339 t)) [
  | inl unread ↦ rw (apply_expiry, unread) (on, act)
  | inr (e, read) ↦ elim (Bool-cases (leb ((e + 1) * nanos) now)) [
    | inl over ↦ rw (apply_expiry, read, remaining_over e now over, over) (refl, refl)
    | inr left ↦
        let (s, is_s) = remaining_left e now left in rw (apply_expiry, read, is_s, left) (on, act)
  ]
]

-- An account may be used if its status is 1 and its expiry has not passed by a full second, and
-- the reason says which of the two fails, the status first.
pub access_of-allowed :
    (status : ℕ) (policy : AccessPolicy) (now : ℕ)
    → ((access_of status policy now).allowed
        ≡ (status == 1 && not (has_passed policy.expires_at now)))
      × ((access_of status policy now).reason ≡ reason_of status (has_passed policy.expires_at now))
unfolding access_of
access_of-allowed status policy now = elim (Bool-cases (status == 1)) [
  | inl on ↦ rw on (apply_expiry-allowed _ policy.expires_at now refl refl)
  | inr off ↦ rw off (refl, refl)
]

-- A row that ends a number of days after `start` allows the use up to then, cut to full seconds,
-- and one second more.
pub access_of_default :
    (policy : AccessPolicy) (days start now : ℕ)
    → policy.expires_at ≡ some (format_rfc3339 (days_after days start))
    → (access_of 1 policy now).allowed
      ≡ ltb now (((start / nanos) + days * seconds_per_day + 1) * nanos)
access_of_default policy days start now e =
    let (allowed, _) = access_of-allowed 1 policy now in
    let read = parse_rfc3339-format_rfc3339 (days_after days start) in
    rw (allowed, e, read) (ground arith)
