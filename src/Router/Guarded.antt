-- ===== src/Router/Guarded.antt =====
-- Who gets to the handlers of internal/router/router.go.
use jd_shop_server.Common.{
  ℕ, String, Bool, true, false, ◌||◌, ◌≡◌, refl, sym, ap, subst, Option, none, some, List, [], ◌∷◌,
  find, map, All, if◌then◌else◌, Bool-cases, inl, inr,
}
use jd_shop_server.Db.{World}
use jd_shop_server.Middleware.{
  RawClaims, Principal, Verdict, unauthorized, authorized, auth, require_super_admin,
}
use jd_shop_server.RateLimit.{RateLimiter, handle}
use jd_shop_server.Router.{
  Endpoint, Route, Request, Answer, served, forbidden, takes, admit, identify, limited,
  serve_console, serve_signed_in, serve_public, serve, public_routes, signed_in_routes,
  console_routes,
}
use text.Mathlib.Text.{starts_with}

-- What a pattern asks of a request, by its beginning.
pub data Access : Type 0 where
  everybody an_account the_super_admin : Access

unfoldable pub required : String → Access
required pattern =
    if starts_with pattern "/api/v1/admin/"
    then the_super_admin
    else if starts_with pattern "/api/v1/user/"
        || starts_with pattern "/api/v1/heartbeat"
        || starts_with pattern "/api/v1/control/"
    then an_account
    else everybody

module _ (matches : String → String → Bool) (parse : String → Option RawClaims)
    (super : String) where
  -- What is known of a request that is served.
  unfoldable pub Meets : Access → Option Principal → Request → ℕ → RateLimiter → World → Type 0
  Meets everybody who request now limiter w =
      (who ≡ none) × ((handle limiter request.remote_addr now).1 ≡ true)
  Meets an_account who request now limiter w =
      (p : Principal) × (who ≡ some p) × ((auth parse request.authorization w).0 ≡ authorized p)
  Meets the_super_admin who request now limiter w =
      (p : Principal) × (who ≡ some p)
      × ((auth parse request.authorization w).0 ≡ authorized p)
      × (require_super_admin super p ≡ true)

  unfoldable pub IsGuarded :
      Request → ℕ → RateLimiter → World → Endpoint → Option Principal → Type 0
  IsGuarded request now limiter w endpoint who =
      (r : Route) × (takes matches request r ≡ true)
      × (r.endpoint ≡ endpoint)
      × Meets (required r.pattern) who request now limiter w

  Asks : Access → Route → Type 0
  Asks a r = required r.pattern ≡ a

  find-Asks :
      (a : Access) (request : Request) (routes : List Route) {r : Route}
      → All (Asks a) routes
      → find (takes matches request) routes ≡ some r
      → (takes matches request r ≡ true) × (required r.pattern ≡ a)
  unfolding Asks find
  find-Asks a request [] all h = cc
  find-Asks a request (first ∷ routes) {r} (asked, rest) h =
      elim (Bool-cases (takes matches request first)) [
        | inl taken ↦
            let found : some first ≡ some r = rw taken at h in
            let same : first ≡ r = cc in
            (
              subst (λ r. takes matches request r ≡ true) same taken,
              subst (λ r. required r.pattern ≡ a) same asked,
            )
        | inr passed_over ↦
            let later : find (takes matches request) routes ≡ some r = rw passed_over at h in
            find-Asks a request routes rest later
      ]

  map-All :
      (a : Access) (routes : List Route)
      → map (λ r. required r.pattern) routes ≡ map (λ r. a) routes
      → All (Asks a) routes
  unfolding Asks
  map-All a [] h = tt
  map-All a (r ∷ routes) h = (cc, map-All a routes cc)

  public-Asks : All (Asks everybody) public_routes
  unfolding Asks public_routes required
  public-Asks = map-All everybody public_routes refl

  signed_in-Asks : All (Asks an_account) signed_in_routes
  unfolding Asks signed_in_routes required
  signed_in-Asks = map-All an_account signed_in_routes refl

  console-Asks : All (Asks the_super_admin) console_routes
  unfolding Asks console_routes required
  console-Asks = map-All the_super_admin console_routes refl

  admit-served :
      (endpoint e : Endpoint) (v : Verdict) (w : World) {who : Option Principal} {w' : World}
      → admit super endpoint (v, w) ≡ (served e who, w')
      → (endpoint ≡ e)
        × (p : Principal) × (who ≡ some p)
        × (v ≡ authorized p)
        × (require_super_admin super p ≡ true)
  unfolding admit
  admit-served endpoint e (unauthorized why) w h = cc
  admit-served endpoint e (authorized p) w {who} {w'} h = go (require_super_admin super p) refl h
    where
      go :
          (b : Bool)
          → require_super_admin super p ≡ b
          → ◌≡◌ {A = Answer × World}
              (elim b [ true ↦ (served endpoint (some p), w) | false ↦ (forbidden, w) ])
              (served e who, w')
          → (endpoint ≡ e)
            × (q : Principal) × (who ≡ some q)
            × (authorized p ≡ authorized q)
            × (require_super_admin super q ≡ true)
      go true granted h = (cc, p, cc, refl, granted)
      go false denied h = cc

  identify-served :
      (endpoint e : Endpoint) (v : Verdict) (w : World) {who : Option Principal} {w' : World}
      → identify endpoint (v, w) ≡ (served e who, w')
      → (endpoint ≡ e) × (p : Principal) × (who ≡ some p) × (v ≡ authorized p)
  unfolding identify
  identify-served endpoint e (unauthorized why) w h = cc
  identify-served endpoint e (authorized p) w h = (cc, p, cc, refl)

  limited-served :
      (endpoint e : Endpoint) (passed : RateLimiter × Bool) {limiter' : RateLimiter}
      {who : Option Principal}
      → limited endpoint passed ≡ (limiter', served e who)
      → (endpoint ≡ e) × (who ≡ none) × (passed.1 ≡ true)
  unfolding limited
  limited-served endpoint e (limiter, true) h = (cc, cc, refl)
  limited-served endpoint e (limiter, false) h = cc

  console-IsGuarded :
      (request : Request) (now : ℕ) (limiter : RateLimiter) (found : Option Route) (w : World)
      {e : Endpoint} {who : Option Principal} {w' : World}
      → find (takes matches request) console_routes ≡ found
      → serve_console matches parse super request found w ≡ (served e who, w')
      → IsGuarded request now limiter w e who
  unfolding serve_console IsGuarded Meets
  console-IsGuarded request now limiter none w f h = cc
  console-IsGuarded request now limiter (some r) w {e} {who} f h =
      let (matched, asked) = find-Asks the_super_admin request console_routes console-Asks f in
      let (same, p, is_p, passed, granted) = admit-served r.endpoint e _ _ h in
      (
        r,
        matched,
        same,
        subst (λ a. Meets a who request now limiter w) (sym asked) (p, is_p, passed, granted),
      )

  signed_in-IsGuarded :
      (request : Request) (now : ℕ) (limiter : RateLimiter) (found : Option Route) (w : World)
      {e : Endpoint} {who : Option Principal} {w' : World}
      → find (takes matches request) signed_in_routes ≡ found
      → serve_signed_in matches parse super request found w ≡ (served e who, w')
      → IsGuarded request now limiter w e who
  unfolding serve_signed_in IsGuarded Meets
  signed_in-IsGuarded request now limiter none w f h =
      console-IsGuarded request now limiter _ w refl h
  signed_in-IsGuarded request now limiter (some r) w {e} {who} f h =
      let (matched, asked) = find-Asks an_account request signed_in_routes signed_in-Asks f in
      let (same, p, is_p, passed) = identify-served r.endpoint e _ _ h in
      (
        r,
        matched,
        same,
        subst (λ a. Meets a who request now limiter w) (sym asked) (p, is_p, passed),
      )

  public-IsGuarded :
      (request : Request) (now : ℕ) (limiter : RateLimiter) (found : Option Route) (w : World)
      {limiter' : RateLimiter} {e : Endpoint} {who : Option Principal} {w' : World}
      → find (takes matches request) public_routes ≡ found
      → serve_public matches parse super request found now limiter w
        ≡ (limiter', (served e who, w'))
      → IsGuarded request now limiter w e who
  unfolding serve_public IsGuarded Meets
  public-IsGuarded request now limiter none w f h =
      signed_in-IsGuarded request now limiter _ w refl (ap (λ r. r.1) h)
  public-IsGuarded request now limiter (some r) w {limiter'} {e} {who} f h =
      let (matched, asked) = find-Asks everybody request public_routes public-Asks f in
      let (same, nobody, passed) =
        limited-served r.endpoint e (handle limiter request.remote_addr now)
          (λ k. ((h k).0, (h k).1.0)) in
      (
        r,
        matched,
        same,
        subst (λ a. Meets a who request now limiter w) (sym asked) (nobody, passed),
      )

  -- A request that gets to a handler matches a route to it. Where the pattern of the route begins
  -- with /api/v1/admin/, it comes with a token that the check of tokens lets through, of a user who
  -- has the name of the super administrator and the role admin; where it begins with
  -- /api/v1/user/, /api/v1/heartbeat or /api/v1/control/, with a token that is let through; and
  -- everywhere else the limiter has let it pass.
  pub serve-IsGuarded :
      (request : Request) (now : ℕ) (limiter : RateLimiter) (w : World) {limiter' : RateLimiter}
      {e : Endpoint} {who : Option Principal} {w' : World}
      → serve matches parse super request now limiter w ≡ (limiter', (served e who, w'))
      → IsGuarded request now limiter w e who
  unfolding serve
  serve-IsGuarded request now limiter w h = public-IsGuarded request now limiter _ w refl h
