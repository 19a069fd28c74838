-- ===== src/RateLimit/Windows.antt =====
-- How many requests of an address the limiter passes on (internal/middleware/ratelimit.go).
use Prim.Native.Nat.{min}
use jd_shop_server.Common.{
  string_eq, ℕ, suc, ◌+◌, ◌≤◌, ◌<◌, ◌≡◌, refl, String, Bool, true, false, none, some, List, [], ◌∷◌,
  arith, All, str_eq, eq_iff, leb, if◌then◌else◌, lookup, lookup-insert, lookup-retain,
  lookup-insert_self, Bool-cases, ◌∙◌, ◌-◌, inl, ap, inr, subst, sym, ◌⊎◌, str_eq_refl,
}
use jd_shop_server.RateLimit.{Visitor, RateLimiter, cleanup, visit, handle}

-- What reaches the limiter: a request of an address, or the timer of `cleanup`.
pub data Event : Type 0 where
  request : String → ℕ → Event
  sweep : ℕ → Event

abbrev pub time : Event → ℕ
time (request ip now) = now
time (sweep now) = now

unfoldable pub step : RateLimiter → Event → RateLimiter × Bool
step rl (request ip now) = handle rl ip now
step rl (sweep now) = (cleanup rl now, false)

abbrev pub is_from : String → Event → Bool
is_from ip (request ip' now) = str_eq ip' ip
is_from ip (sweep now) = false

-- The requests of `ip` that are passed on.
unfoldable pub passed : String → RateLimiter → List Event → ℕ
passed ip rl [] = 0
passed ip rl (e ∷ es) =
    let (rl', pass) = step rl e in
    let rest = passed ip rl' es in if is_from ip e then (if pass then suc rest else rest) else rest

-- The requests of `ip` that are made.
unfoldable pub made : String → List Event → ℕ
made ip [] = 0
made ip (e ∷ es) = let rest = made ip es in if is_from ip e then suc rest else rest

-- The window of `ip` that opened at `t` has counted `n` requests.
abbrev IsOpen : String → ℕ → ℕ → RateLimiter → Type 0
IsOpen ip t n rl = lookup ip rl.visitors ≡ some (record { count = n; last_seen = t })

abbrev opened : ℕ → ℕ → Visitor
opened t n = record { count = n; last_seen = t }

visit_open :
    (rl : RateLimiter) (t n now : ℕ)
    → now ≤ t + rl.window
    → visit rl (some (opened t n)) now ≡ opened t (n + 1)
unfolding visit
visit_open rl t n now le = ground arith

-- A request of `ip` in its open window is counted, and passes up to the limit.
handle-IsOpen_own :
    (rl : RateLimiter) (ip : String) (t n now : ℕ)
    → IsOpen ip t n rl
    → now ≤ t + rl.window
    → IsOpen ip t (n + 1) (handle rl ip now).0 × ((handle rl ip now).1 ≡ leb (n + 1) rl.limit)
unfolding handle
handle-IsOpen_own rl ip t n now h le =
    let v : visit rl (lookup ip rl.visitors) now ≡ opened t (n + 1) =
      rw h (visit_open rl t n now le) in
    (lookup-insert_self ip _ rl.visitors ∙ ap some v, rw v (ground arith))

handle-IsOpen_same :
    (rl : RateLimiter) (ip ip' : String) (t n now : ℕ)
    → IsOpen ip t n rl
    → str_eq ip' ip ≡ true
    → now ≤ t + rl.window
    → IsOpen ip t (n + 1) (handle rl ip' now).0 × ((handle rl ip' now).1 ≡ leb (n + 1) rl.limit)
handle-IsOpen_same rl ip ip' t n now h same le =
    subst
      (λ j. IsOpen ip t (n + 1) (handle rl j now).0 × ((handle rl j now).1 ≡ leb (n + 1) rl.limit))
      (sym ((eq_iff ip' ip).0 same)) (handle-IsOpen_own rl ip t n now h le)

visit_new :
    (rl : RateLimiter) (ip : String) (t : ℕ)
    → (lookup ip rl.visitors ≡ none)
      ⊎ ((v : Visitor) × (lookup ip rl.visitors ≡ some v) × (v.last_seen + rl.window < t))
    → visit rl (lookup ip rl.visitors) t ≡ opened t 1
unfolding visit
visit_new rl ip t (inl absent) = rw absent (ground arith)
visit_new rl ip t (inr (v, found, over)) = rw found (ground arith)

-- Requests of other addresses, and the timer, leave it open.
handle-IsOpen_other :
    (rl : RateLimiter) (ip ip' : String) (t n now : ℕ)
    → IsOpen ip t n rl
    → str_eq ip' ip ≡ false
    → IsOpen ip t n (handle rl ip' now).0
unfolding handle
handle-IsOpen_other rl ip ip' t n now h other =
    lookup-insert ip ip' (visit rl (lookup ip' rl.visitors) now) rl.visitors ∙ rw other h

cleanup-IsOpen :
    (rl : RateLimiter) (ip : String) (t n now : ℕ)
    → IsOpen ip t n rl
    → now ≤ t + rl.window
    → IsOpen ip t n (cleanup rl now)
unfolding cleanup
cleanup-IsOpen rl ip t n now h le = lookup-retain ip _ rl.visitors h (ground arith)

handle_config :
    (rl : RateLimiter) (ip : String) (now : ℕ)
    → ((handle rl ip now).0.limit ≡ rl.limit) × ((handle rl ip now).0.window ≡ rl.window)
unfolding handle
handle_config rl ip now = (refl, refl)

cleanup_config :
    (rl : RateLimiter) (now : ℕ)
    → ((cleanup rl now).limit ≡ rl.limit) × ((cleanup rl now).window ≡ rl.window)
unfolding cleanup
cleanup_config rl now = (refl, refl)

-- How many of `m` further requests pass when `n` are counted.
abbrev room : ℕ → ℕ → ℕ → ℕ
room limit n m = min (limit - n) m

-- In a window that stays open, the first requests pass, up to the limit.
passed_open :
    (rl : RateLimiter) (limit window : ℕ) (ip : String) (t n : ℕ) (es : List Event)
    → (rl.limit ≡ limit) × (rl.window ≡ window)
    → IsOpen ip t n rl
    → All (λ e. time e ≤ t + window) es
    → passed ip rl es ≡ room limit n (made ip es)
unfolding passed made step
passed_open rl limit window ip t n [] c h a = omega arith
passed_open rl limit window ip t n (sweep now ∷ es) (cl, cw) h (le, a) =
    let (kl, kw) = cleanup_config rl now in
    passed_open (cleanup rl now) limit window ip t n es (kl ∙ cl, kw ∙ cw)
      (cleanup-IsOpen rl ip t n now h (rw cw le)) a
passed_open rl limit window ip t n (request ip' now ∷ es) (cl, cw) h (le, a) =
    let (kl, kw) = handle_config rl ip' now in
    elim (Bool-cases (str_eq ip' ip)) [
      | inl same ↦
          let (counted, pass) = handle-IsOpen_same rl ip ip' t n now h same (rw cw le) in
          let rest =
            passed_open (handle rl ip' now).0 limit window ip t (n + 1) es (kl ∙ cl, kw ∙ cw)
              counted a in
          ground arith
      | inr other ↦ rw other (
          passed_open (handle rl ip' now).0 limit window ip t n es (kl ∙ cl, kw ∙ cw)
            (handle-IsOpen_other rl ip ip' t n now h other) a)
    ]

-- The first request of an address that has no entry opens its window.
handle-IsOpen_new :
    (rl : RateLimiter) (ip : String) (t : ℕ)
    → (lookup ip rl.visitors ≡ none)
      ⊎ ((v : Visitor) × (lookup ip rl.visitors ≡ some v) × (v.last_seen + rl.window < t))
    → IsOpen ip t 1 (handle rl ip t).0 × ((handle rl ip t).1 ≡ leb 1 rl.limit)
unfolding handle
handle-IsOpen_new rl ip t old =
    let v : visit rl (lookup ip rl.visitors) t ≡ opened t 1 = visit_new rl ip t old in
    (lookup-insert_self ip _ rl.visitors ∙ ap some v, rw v (ground arith))

-- From a request of `ip` at `t` that finds no entry, or one whose window is over, on: of its
-- requests up to `t + window` exactly the first `limit` are passed on, whatever other addresses
-- send and whenever the timer runs.
pub passed_window :
    (rl : RateLimiter) (ip : String) (t : ℕ) (es : List Event)
    → (lookup ip rl.visitors ≡ none)
      ⊎ ((v : Visitor) × (lookup ip rl.visitors ≡ some v) × (v.last_seen + rl.window < t))
    → All (λ e. time e ≤ t + rl.window) es
    → passed ip rl (request ip t ∷ es) ≡ min rl.limit (made ip (request ip t ∷ es))
unfolding passed made step
passed_window rl ip t es old a =
    let (kl, kw) = handle_config rl ip t in
    let (counted, pass) = handle-IsOpen_new rl ip t old in
    let rest = passed_open (handle rl ip t).0 rl.limit rl.window ip t 1 es (kl, kw) counted a in
    ground (arith, str_eq_refl ip)
