-- ===== src/Service/Auth/Logins.antt =====
-- Under what conditions a login succeeds (internal/service/auth.go), and which failures its lock
-- counts (internal/repository/login_log.go).
use jd_shop_server.Common.{
  ℕ, ◌<◌, String, Bool, true, false, not, ◌&&◌, ◌≡◌, refl, sym, ap, ◌∙◌, Option, none, some, ◌==◌,
  str_eq, leb, if◌then◌else◌, find, count_where, trim_space, arith, Bool-cases, inl, inr,
}
use jd_shop_server.Time.{format_rfc3339}
use jd_shop_server.Model.{User, AccountAccess, LoginRequest, LoginResponse, LoginResult}
use jd_shop_server.Db.{Db, World, ok, M, Error, ◌>>=◌}
use jd_shop_server.Db.Success.{bind-eq-ok, query-eq-ok, pure-eq-ok, fail-ne-ok}
use jd_shop_server.Repository.Users.{has_username, has_phone}
use jd_shop_server.Repository.Users.Lookups.{
  FoundBy, find_by_username-eq-some, find_by_phone-eq-some,
}
use jd_shop_server.Repository.LoginLogs.{is_counted, minutes_before, count_failures}
use jd_shop_server.Service.Packages.{Packages}
use jd_shop_server.Service.Sms.{normalize_phone}
use jd_shop_server.Service.Auth.{
  Context, is_expired, login, login_identifier, login_account, login_found, login_evaluated, issue,
  refuse_login,
}
use jd_shop_server.Service.Sms.{matches_phone}
use jd_shop_server.Db.{Keeps, too_many_attempts}
use jd_shop_server.Model.{locked}
use jd_shop_server.Db.Laws.{keeps_if, kept_at}
use jd_shop_server.Repository.Users.Lookups.{reads_find_by_username, reads_find_by_phone}

-- The account that a request names: by its phone, trimmed, or by its user name.
abbrev pub is_named : LoginRequest → User → Bool
is_named req =
    if str_eq req.phone "" then has_username req.username else has_phone (trim_space req.phone)

abbrev pub identifier_of : LoginRequest → String
identifier_of req = if str_eq req.phone "" then req.username else trim_space req.phone

abbrev pub failures_in : Context → LoginRequest → String → Db → ℕ
failures_in c req ip db =
    count_where
      (is_counted (format_rfc3339 (minutes_before c.config.login_lock_minutes c.now))
        (identifier_of req) ip)
      db.login_logs

module _ (k : Packages) (c : Context) where
  refuse_login-ne-ok :
      (A : Type 0) (id : Option ℕ) (name ip agent : String) (result : LoginResult) (reason : String)
      (e : Error) (w : World) {a : A} {w' : World}
      → refuse_login k c {A = A} id name ip agent result reason e w ≡ (ok a, w')
      → ⊥
  unfolding refuse_login
  refuse_login-ne-ok A id name ip agent result reason e w h =
      let (_, w₁, _, rest) = bind-eq-ok _ _ w h in fail-ne-ok A e w₁ rest

  issue-ok :
      (req : LoginRequest) (ip agent : String) (u : User) (access : AccountAccess) (w : World)
      {r : LoginResponse} {w' : World}
      → issue k c req ip agent u access w ≡ (ok r, w')
      → (r.user.id ≡ u.id) × (r.user.access ≡ access)
  unfolding issue
  issue-ok req ip agent u access w h =
      let (_, w₁, _, h₁) = bind-eq-ok _ _ w h in
      let (_, w₂, _, h₂) = bind-eq-ok _ _ w₁ h₁ in
      let (_, w₃, _, h₃) = bind-eq-ok _ _ w₂ h₂ in
      let (_, w₄, _, h₄) = bind-eq-ok _ _ w₃ h₃ in
      let (_, w₅, _, h₅) = bind-eq-ok _ _ w₄ h₄ in
      let (made, _) = pure-eq-ok _ w₅ h₅ in
      (
        ap (λ (x : LoginResponse). x.user.id) (sym made),
        ap (λ (x : LoginResponse). x.user.access) (sym made),
      )

  login_evaluated-ok :
      (req : LoginRequest) (name ip agent : String) (u : User) (w : World) {r : LoginResponse}
      {w' : World}
      → login_evaluated k c req name ip agent u w ≡ (ok r, w')
      → (r.user.id ≡ u.id)
        × ((not r.user.access.allowed && is_expired r.user.access.reason) ≡ false)
  unfolding login_evaluated
  login_evaluated-ok req name ip agent u w h =
      let (access, w₁, _, rest) = bind-eq-ok _ _ w h in
      elim (Bool-cases (not access.allowed && is_expired access.reason)) [
        | inl out ↦ elim (refuse_login-ne-ok _ _ _ _ _ _ _ _ w₁ (rw out at rest)) [ ]
        | inr usable ↦
            let (id, same) = issue-ok req ip agent u access w₁ (rw usable at rest) in
            (id, rw same usable)
      ]

  login_found-ok :
      (req : LoginRequest) (name ip agent : String) (found : Option User) (w : World)
      {r : LoginResponse} {w' : World}
      → login_found k c req name ip agent found w ≡ (ok r, w')
      → (u : User) × (found ≡ some u)
        × (u.status ≡ 1)
        × (k.compare_hash u.password_hash req.password ≡ true)
        × (r.user.id ≡ u.id)
        × ((not r.user.access.allowed && is_expired r.user.access.reason) ≡ false)
  unfolding login_found
  login_found-ok req name ip agent none w h = elim (refuse_login-ne-ok _ _ _ _ _ _ _ _ w h) [ ]
  login_found-ok req name ip agent (some u) w h = elim (Bool-cases (not (u.status == 1))) [
    | inl off ↦ elim (refuse_login-ne-ok _ _ _ _ _ _ _ _ w (rw off at h)) [ ]
    | inr on ↦ elim (Bool-cases (not (k.compare_hash u.password_hash req.password))) [
      | inl wrong ↦ elim (refuse_login-ne-ok _ _ _ _ _ _ _ _ w (rw (on, wrong) at h)) [ ]
      | inr right ↦
          let (id, usable) = login_evaluated-ok req name ip agent u w (rw (on, right) at h) in
          (u, refl, ground arith, ground arith, id, usable)
    ]
  ]

  login_identifier-ok :
      (req : LoginRequest) (w : World) {name : String} {w' : World}
      → login_identifier k c req w ≡ (ok name, w')
      → (name ≡ identifier_of req) × (w' ≡ w)
  unfolding login_identifier normalize_phone
  login_identifier-ok req w h = elim (Bool-cases (str_eq req.phone "")) [
    | inl by_name ↦
        let (same, kept) = pure-eq-ok _ w (rw by_name at h) in (rw by_name (sym same), sym kept)
    | inr by_phone ↦ elim (Bool-cases (matches_phone (trim_space req.phone))) [
      | inl valid ↦
          let (same, kept) = pure-eq-ok _ w (rw (by_phone, valid) at h) in
          (rw by_phone (sym same), sym kept)
      | inr invalid ↦ elim (fail-ne-ok _ _ w (rw (by_phone, invalid) at h)) [ ]
    ]
  ]

  login_account-ok :
      (req : LoginRequest) (w : World) {u : User} {w' : World}
      → login_account k c req (identifier_of req) w ≡ (ok (some u), w')
      → FoundBy (is_named req) w.db u
  unfolding login_account
  login_account-ok req w h = elim (Bool-cases (str_eq req.phone "")) [
    | inl by_name ↦
        let looked = find_by_username-eq-some req.username w (rw by_name at h) in rw by_name looked
    | inr by_phone ↦
        let looked = find_by_phone-eq-some (trim_space req.phone) w (rw by_phone at h) in
        rw by_phone looked
  ]

  login_account_reads :
      (P : Db → Type 0) (req : LoginRequest) (name : String) → Keeps P (login_account k c req name)
  unfolding login_account
  login_account_reads P req name =
      keeps_if P _ _ _ (reads_find_by_username P name) (reads_find_by_phone P name)

  -- `Login` from the count of the failures on.
  abbrev login_counted : LoginRequest → String → String → Option User → M LoginResponse
  login_counted req ip agent found = do
    failures ← count_failures (identifier_of req) ip c.config.login_lock_minutes c.now
    if leb c.config.login_max_attempts failures
        then refuse_login k c none (identifier_of req) ip agent locked "too many attempts"
            too_many_attempts
        else login_found k c req (identifier_of req) ip agent found

  login_counted-ok :
      (req : LoginRequest) (ip agent : String) (u : Option User) (w : World) {r : LoginResponse}
      {w' : World}
      → login_counted req ip agent u w ≡ (ok r, w')
      → (failures_in c req ip w.db < c.config.login_max_attempts)
        × (w₁ : World) × (login_found k c req (identifier_of req) ip agent u w₁ ≡ (ok r, w'))
  unfolding count_failures
  login_counted-ok req ip agent u w h =
      let (failures, w₁, counted, rest) = bind-eq-ok _ _ w h in
      let (is_count, _) = query-eq-ok _ w counted in
      elim (Bool-cases (leb c.config.login_max_attempts failures)) [
        | inl many ↦ elim (refuse_login-ne-ok _ _ _ _ _ _ _ _ w₁ (rw many at rest)) [ ]
        | inr few ↦
            let below : failures < c.config.login_max_attempts = ground arith in
            (rw (← is_count) below, w₁, rw few at rest)
      ]

  -- What a login that answers `r` has checked, on the database that it found.
  abbrev pub Accepted : LoginRequest → String → Db → LoginResponse → Type 0
  Accepted req ip db r =
      (failures_in c req ip db < c.config.login_max_attempts)
      × (u : User) × (find (is_named req) db.users ≡ some u)
      × (u.status ≡ 1)
      × (k.compare_hash u.password_hash req.password ≡ true)
      × (r.user.id ≡ u.id)
      × ((not r.user.access.allowed && is_expired r.user.access.reason) ≡ false)

  user-Accepted :
      (req : LoginRequest) (ip : String) (u : User) (w w₁ : World) (r : LoginResponse)
      → login_account k c req (identifier_of req) w ≡ (ok (some u), w₁)
      → failures_in c req ip w.db < c.config.login_max_attempts
      → u.status ≡ 1
      → k.compare_hash u.password_hash req.password ≡ true
      → r.user.id ≡ u.id
      → (not r.user.access.allowed && is_expired r.user.access.reason) ≡ false
      → Accepted req ip w.db r
  user-Accepted req ip u w w₁ r looked few on password id usable =
      let (u₀, roles, is_u₀, of_u₀) = login_account-ok req w looked in
      (
        few,
        u₀,
        is_u₀,
        ap (λ (x : User). x.status) (sym of_u₀) ∙ on,
        rw of_u₀ at password,
        id ∙ ap (λ (x : User). x.id) of_u₀,
        usable,
      )

  account-Accepted :
      (req : LoginRequest) (ip agent : String) (found : Option User) (w w₁ : World)
      {r : LoginResponse} {w' : World}
      → login_account k c req (identifier_of req) w ≡ (ok found, w₁)
      → login_counted req ip agent found w₁ ≡ (ok r, w')
      → Accepted req ip w.db r
  account-Accepted req ip agent found w w₁ {r} looked h =
      let P : Db → Type 0 = λ db. db ≡ w.db in
      let unchanged : w₁.db ≡ w.db =
        kept_at P (login_account_reads P req (identifier_of req)) w looked refl in
      let (few, w₂, rest) = login_counted-ok req ip agent found w₁ h in
      let (u, is_u, on, password, id, usable) =
        login_found-ok req (identifier_of req) ip agent found w₂ rest in
      user-Accepted req ip u w w₁ r (rw is_u at looked) (rw unchanged at few) on password id usable

  named-Accepted :
      (req : LoginRequest) (ip agent : String) (w : World) {r : LoginResponse} {w' : World}
      → (login_account k c req (identifier_of req) >>= login_counted req ip agent) w ≡ (ok r, w')
      → Accepted req ip w.db r
  named-Accepted req ip agent w h =
      let (found, w₁, looked, rest) =
        bind-eq-ok (login_account k c req (identifier_of req)) (login_counted req ip agent) w h in
      account-Accepted req ip agent found w w₁ looked rest

  -- Where a login succeeds, fewer failures of the name or the address were counted than the limit,
  -- and the account that the request names was there, with status 1 and the password given; the
  -- answer is about that account, and its access is not refused as expired.
  pub login-ok :
      (req : LoginRequest) (ip agent : String) (w : World) {r : LoginResponse} {w' : World}
      → login k c req ip agent w ≡ (ok r, w')
      → Accepted req ip w.db r
  unfolding login
  login-ok req ip agent w h =
      let (name, w₁, named, rest) = bind-eq-ok _ _ w h in
      let (is_name, same) = login_identifier-ok req w named in
      named-Accepted req ip agent w (rw (is_name, same) at rest)
