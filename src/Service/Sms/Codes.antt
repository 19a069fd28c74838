-- ===== src/Service/Sms/Codes.antt =====
-- When a verification code is accepted (internal/service/sms.go), and that it is used up then.
use jd_shop_server.Common.{
  ℕ, ◌*◌, ◌≤◌, ◌<◌, String, true, false, not, ◌||◌, ◌≡◌, ◌≢◌, refl, sym, ap, ◌∙◌, Option, none,
  some, ◌==◌, str_eq, leb, find, find-update_where, update_where, trim_space, arith, Bool-cases,
  inl, inr, ==_refl, eq_iff, subst,
}
use jd_shop_server.Time.{nanos, is_after}
use jd_shop_server.Model.{SmsVerification}
use jd_shop_server.Db.{Db, World, ok, ◌>>=◌}
use jd_shop_server.Db.Success.{bind-eq-ok, query-eq-ok, pure-eq-ok, fail-ne-ok, exec-eq-ok}
use jd_shop_server.Repository.Sms.{
  Verification, has_phone_and_purpose, has_id, parse_timestamp, parsed_or_fail, verification_of,
  latest, consume,
}
use jd_shop_server.Service.Packages.{Packages}
use jd_shop_server.Service.Sms.{
  sms_max_attempts, matches_phone, normalize_phone, refuse_code, check_code, check_found,
  verify_code,
}

pub parsed_or_fail-ok :
    (o : Option ℕ) (w : World) {s : ℕ} {w' : World}
    → parsed_or_fail o w ≡ (ok s, w')
    → (o ≡ some s) × (w' ≡ w)
unfolding parsed_or_fail
parsed_or_fail-ok none w h = elim (fail-ne-ok _ _ w h) [ ]
parsed_or_fail-ok (some s) w h = let (same, kept) = pure-eq-ok _ w h in (ap some same, sym kept)

-- What the service reads of a row.
abbrev IsOf : Verification → SmsVerification → Type 0
IsOf v row =
    (v.id ≡ row.id)
    × (v.code_hash ≡ row.code_hash)
    × (parse_timestamp row.expires_at ≡ some v.expires_at)
    × (v.attempts ≡ row.attempts)
    × (v.consumed ≡ (row.consumed == 1))

abbrev read_as : SmsVerification → ℕ → ℕ → Verification
read_as row sent expires = record {
  id = row.id;
  code_hash = row.code_hash;
  sent_at = sent;
  expires_at = expires;
  attempts = row.attempts;
  consumed = row.consumed == 1;
}

read_as-IsOf :
    (row : SmsVerification) (sent expires : ℕ) {v : Verification}
    → ◌≡◌ {A = Option Verification} (some (read_as row sent expires)) (some v)
    → parse_timestamp row.expires_at ≡ some expires
    → IsOf v row
read_as-IsOf row sent expires {v} e read =
    let same : read_as row sent expires ≡ v = cc in
    subst (λ x. IsOf x row) same (refl, refl, read, refl, refl)

verification_of-ok :
    (found : Option SmsVerification) (w : World) {v : Verification} {w' : World}
    → verification_of found w ≡ (ok (some v), w')
    → (row : SmsVerification) × (found ≡ some row) × IsOf v row × (w' ≡ w)
unfolding verification_of
verification_of-ok none w h = let (absurd, _) = pure-eq-ok _ w h in cc
verification_of-ok (some row) w h =
    let (sent, w₁, h₁, rest) = bind-eq-ok _ _ w h in
    let (_, same) = parsed_or_fail-ok _ w h₁ in
    let (expires, w₂, h₂, rest') = bind-eq-ok _ _ w₁ rest in
    let (is_expiry, same') = parsed_or_fail-ok _ w₁ h₂ in
    let (made, kept) = pure-eq-ok _ w₂ rest' in
    (row, refl, read_as-IsOf row sent expires made is_expiry, sym kept ∙ same' ∙ same)

normalize_phone-ok :
    (phone : String) (w : World) {number : String} {w' : World}
    → normalize_phone phone w ≡ (ok number, w')
    → (matches_phone (trim_space phone) ≡ true) × (number ≡ trim_space phone) × (w' ≡ w)
unfolding normalize_phone
normalize_phone-ok phone w h = elim (Bool-cases (matches_phone (trim_space phone))) [
  | inl valid ↦ let (same, kept) = pure-eq-ok _ w (rw valid at h) in (valid, sym same, sym kept)
  | inr invalid ↦ elim (fail-ne-ok _ _ w (rw invalid at h)) [ ]
]

abbrev used_up : SmsVerification → SmsVerification
used_up v = record v { consumed = 1 }

-- The database with the code used up.
abbrev pub use_up : ℕ → Db → Db
use_up id db = record db {
  sms_verifications = update_where (has_id id) used_up db.sms_verifications;
}

module _ (k : Packages) where
  check_code-ok :
      (v : Verification) (code : String) (now : ℕ) (w : World) {w' : World}
      → check_code k v code now w ≡ (ok tt, w')
      → (v.consumed ≡ false)
        × (now ≤ v.expires_at * nanos)
        × (v.attempts < sms_max_attempts)
        × (k.hash_code code ≡ v.code_hash)
        × (consume v.id w ≡ (ok tt, w'))
  unfolding check_code refuse_code
  check_code-ok v code now w h = elim (Bool-cases (v.consumed || is_after now v.expires_at)) [
    | inl over ↦ elim (fail-ne-ok _ _ w (rw over at h)) [ ]
    | inr live ↦
        elim (Bool-cases
          (leb sms_max_attempts v.attempts || not (str_eq (k.hash_code code) v.code_hash))) [
            | inl wrong ↦
                let (_, w₁, _, rest) = bind-eq-ok _ _ w (rw (live, wrong) at h) in
                elim (fail-ne-ok _ _ w₁ rest) [ ]
            | inr right ↦
                let equal : str_eq (k.hash_code code) v.code_hash ≡ true = ground arith in
                (
                  ground arith,
                  ground arith,
                  ground arith,
                  (eq_iff _ _).0 equal,
                  rw (live, right) at h,
                )
          ]
  ]

  -- What the database holds where a code is accepted at `now`: of the codes for the phone and the
  -- purpose the newest, which is not used up, not expired, has had fewer than five wrong guesses,
  -- and is the code given.
  abbrev pub Acceptable : String → String → String → ℕ → Db → SmsVerification → Type 0
  Acceptable number purpose code now db row =
      (find (has_phone_and_purpose number purpose) db.sms_verifications ≡ some row)
      × ((row.consumed == 1) ≡ false)
      × (e : ℕ) × (parse_timestamp row.expires_at ≡ some e)
      × (now ≤ e * nanos)
      × (row.attempts < sms_max_attempts)
      × (k.hash_code code ≡ row.code_hash)

  found-Acceptable :
      (number purpose code : String) (now : ℕ) (found : Option Verification) (w w₁ : World)
      {w' : World}
      → latest number purpose w ≡ (ok found, w₁)
      → check_found k found code now w₁ ≡ (ok tt, w')
      → (row : SmsVerification) × Acceptable number purpose code now w.db row
        × (w'.db ≡ use_up row.id w.db)
  unfolding check_found latest consume
  found-Acceptable number purpose code now none w w₁ looked h = elim (fail-ne-ok _ _ w₁ h) [ ]
  found-Acceptable number purpose code now (some v) w w₁ looked h =
      let (found, w₂, read, rest) = bind-eq-ok _ _ w looked in
      let (is_found, kept) = query-eq-ok _ w read in
      let (row, is_row, (id, hash, expiry, attempts, consumed), same) =
        verification_of-ok found w₂ rest in
      let (live, in_time, few, right, used) = check_code-ok v code now w₁ h in
      let unchanged : w₁.db ≡ w.db = ap (λ (x : World). x.db) same ∙ kept in
      (
        row,
        (
          sym is_found ∙ is_row,
          sym consumed ∙ live,
          v.expires_at,
          expiry,
          in_time,
          rw attempts at few,
          right ∙ hash,
        ),
        exec-eq-ok _ w₁ used ∙ ap (use_up v.id) unchanged ∙ ap (λ i. use_up i w.db) id,
      )

  number-Acceptable :
      (number purpose code : String) (now : ℕ) (w : World) {w' : World}
      → (latest number purpose >>= λ found. check_found k found code now) w ≡ (ok tt, w')
      → (row : SmsVerification) × Acceptable number purpose code now w.db row
        × (w'.db ≡ use_up row.id w.db)
  number-Acceptable number purpose code now w h =
      let (found, w₁, looked, rest) =
        bind-eq-ok (latest number purpose) (λ found. check_found k found code now) w h in
      found-Acceptable number purpose code now found w w₁ looked rest

  -- Where a code is accepted, the phone is a mobile number and the database held the code, and all
  -- that changes is that it is marked as used up.
  pub verify_code-ok :
      (phone purpose code : String) (now : ℕ) (w : World) {w' : World}
      → verify_code k phone purpose code now w ≡ (ok tt, w')
      → (matches_phone (trim_space phone) ≡ true)
        × (row : SmsVerification) × Acceptable (trim_space phone) purpose code now w.db row
        × (w'.db ≡ use_up row.id w.db)
  unfolding verify_code
  verify_code-ok phone purpose code now w h =
      let (number, w₁, normal, h₁) = bind-eq-ok _ _ w h in
      let (is_phone, is_number, same) = normalize_phone-ok phone w normal in
      let (row, acceptable, left) =
        number-Acceptable (trim_space phone) purpose code now w (rw (is_number, same) at h₁) in
      (is_phone, row, acceptable, left)

  -- A code is accepted once: right after that, no code is accepted for the phone and the purpose.
  pub verify_code_once :
      (phone purpose code code' : String) (now now' : ℕ) (w : World) {w' w'' : World}
      → verify_code k phone purpose code now w ≡ (ok tt, w')
      → verify_code k phone purpose code' now' w' ≢ (ok tt, w'')
  verify_code_once phone purpose code code' now now' w {w'} h h' =
      let (_, row, (found, _, _, _, _, _, _), left) = verify_code-ok phone purpose code now w h in
      let (_, row', (found', live, _, _, _, _, _), _) =
        verify_code-ok phone purpose code' now' w' h' in
      let seen =
        find-update_where (has_phone_and_purpose (trim_space phone) purpose) (has_id row.id) used_up
          w.db.sms_verifications (λ v. refl) in
      let marked : some (used_up row) ≡ some row' =
        rw (left, seen, found, ==_refl row.id) at found' in
      let used : used_up row ≡ row' = cc in let clash : true ≡ false = rw (← used) at live in cc
