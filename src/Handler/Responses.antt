-- ===== src/Handler/Responses.antt =====
-- internal/handler/response.go: the replies of handlers and their statuses, and the numbers of a
-- query. A handler's steps that refuse a request early are functions over the rest of the handler.
use jd_shop_server.Common.{ℕ, String, Option, none, some, List, ◌==◌, if◌then◌else◌}
use jd_shop_server.Common.Int.{ℤ, positive}
use jd_shop_server.Db.{World, Result, ok, err, Error, M}

-- The body of a reply: the code 0 with data, or a code with a message.
pub data Reply {ℓ} (A : Type ℓ) : Type ℓ where
  data_of : A → Reply A
  message : ℕ → String → Reply A

unfoldable pub code_to_http_status : ℕ → ℕ
code_to_http_status code =
    if code == 0
    then 200
    else if code == 10001
    then 400
    else if code == 10002
    then 401
    else if code == 10003
    then 403
    else if code == 10004
    then 404
    else if code == 10005
    then 409
    else if code == 10006
    then 429
    else if code == 10503
    then 503
    else 500

-- The status of `respondOK`, and of `respondMessage` and `respondError`.
unfoldable pub http_status {ℓ} : {A : Type ℓ} → Reply A → ℕ
unfolding code_to_http_status
http_status (data_of a) = 200
http_status (message code text) = code_to_http_status code

pub record Paginated (A : Type 0) : Type 0 where
  pub items : List A
  pub total : ℕ
  pub page : ℕ
  pub page_size : ℕ

-- The value of a query parameter: `none` for an empty text or one that `Atoi` refuses.
abbrev or_default : ℕ → Option ℕ → ℕ
or_default d none = d
or_default d (some n) = n

unfoldable pub get_query_int : Option ℤ → ℕ → ℕ
unfolding or_default
get_query_int value default = or_default default (positive value)

-- `getQueryInt64`, of numbers that are not negative.
unfoldable pub get_query_int64 : Option ℕ → ℕ → ℕ
unfolding or_default
get_query_int64 value default = or_default default value

abbrev pub Handler : Type 0 → Type 0
Handler A = World → Reply A × World

abbrev pub reply_of : {A B : Type 0} → (A → Reply B) → (Error → Reply B) → Result A → Reply B
reply_of f g (ok a) = f a
reply_of f g (err e) = g e

-- The call of a service, answered by `f` or, for an error, by `g`.
unfoldable pub respond : {A B : Type 0} → (A → Reply B) → (Error → Reply B) → M A → Handler B
respond f g m w = let (r, w') = m w in (reply_of f g r, w')

unfoldable pub refuse : {A : Type 0} → ℕ → String → Handler A
refuse code text w = (message code text, w)

abbrev pub internal : {A : Type 0} → Error → Reply A
internal e = message 10500 "服务内部错误"

-- `parseIDParam`: the id, if `ParseInt` reads the parameter.
unfoldable pub with_id : {A : Type 0} → Option ℕ → (ℕ → Handler A) → Handler A
unfolding refuse
with_id none k = refuse 10001 "ID格式错误"
with_id (some id) k = k id

-- `decodeBody`: the request, if the body can be decoded.
unfoldable pub with_body : {R A : Type 0} → Option R → (R → Handler A) → Handler A
unfolding refuse
with_body none k = refuse 10001 "请求格式错误"
with_body (some req) k = k req

-- `if msg := …; msg != ""`.
unfoldable pub checked : {A : Type 0} → Option String → Handler A → Handler A
unfolding refuse
checked none k = k
checked (some text) k = refuse 10001 text
