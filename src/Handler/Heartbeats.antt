-- ===== src/Handler/Heartbeats.antt =====
-- internal/handler/heartbeat.go.
use jd_shop_server.Common.{ℕ, String, Option, str_eq, if◌then◌else◌}
use jd_shop_server.Model.{HeartbeatRequest, HeartbeatResponse}
use jd_shop_server.Handler.Responses.{Handler, data_of, with_body, refuse, respond, internal}
use jd_shop_server.Service.Heartbeats

unfoldable pub report :
    String → ℕ → Option HeartbeatRequest → String → String → ℕ → Handler HeartbeatResponse
report super user body real_ip remote_addr now = with_body body λ req.
    if str_eq req.device_id ""
    then refuse 10001 "device_id不能为空"
    else let ip = if str_eq real_ip "" then remote_addr else real_ip in
      respond data_of internal (Heartbeats.report super user req ip now)
