-- ===== src/Kiali/Requests.antt =====
-- The health of requests: `isErrorCode`, `getStatusForCodeRatio`, `evaluateRequestHealth`,
-- `calculateErrorRate`, `hasAnyRequests` and `mergeHealthStatus` of
-- pkg/kiali/health_calculation.go. The maps are iterated in the order of their entries.
pub mod Worst
pub mod Verdict
use Prim.Native.Char.{code}
use Prim.Native.String.{char_at}
use kube_mcp_server.Base.{
  ℕ, zero, suc, ◌+◌, ◌≡◌, String, Bool, true, false, not, ◌&&◌, ◌||◌, Option, none, some, List, [],
  ◌∷◌, ◌==◌, ◌!=◌, if◌then◌else◌, eqb, ltb, any,
}
use kube_mcp_server.Base.Assoc.{Assoc}
use kube_mcp_server.Base.Text.{text_length}
use kube_mcp_server.Kiali.{
  Floats, Status, unhealthy, degraded, not_ready, healthy, unknown, RequestHealth,
}

-- len(code) == 3 && code[0] == digit
abbrev pub class_of : ℕ → String → Bool
class_of digit String.[] = false
class_of digit (String.◌∷◌ c s) = eqb (text_length s) 2 && eqb (code c) digit

unfoldable pub is_error_code : String → String → Bool
is_error_code protocol code =
    if protocol == "http"
    then (if code == "-"
        then true
        else if class_of b'4' code
        then true
        else if class_of b'5' code
        then true
        else false)
    else if protocol == "grpc"
    then (if code == "-" then true else if code != "0" then true else false)
    else false

-- The priorities of the map; a status that it lacks would have 0, as unknown has.
unfoldable pub priority : Status → ℕ
priority unhealthy = 4
priority degraded = 3
priority not_ready = 2
priority healthy = 1
priority unknown = 0

unfoldable pub merge_health_status : Status → Status → Status
unfolding priority
merge_health_status s1 s2 = if ltb (priority s2) (priority s1) then s1 else s2

abbrev pub is_unhealthy : Status → Bool
is_unhealthy unhealthy = true
is_unhealthy degraded = false
is_unhealthy not_ready = false
is_unhealthy healthy = false
is_unhealthy unknown = false

abbrev pub is_degraded : Status → Bool
is_degraded unhealthy = false
is_degraded degraded = true
is_degraded not_ready = false
is_degraded healthy = false
is_degraded unknown = false

abbrev pub is_healthy : Status → Bool
is_healthy unhealthy = false
is_healthy degraded = false
is_healthy not_ready = false
is_healthy healthy = true
is_healthy unknown = false

-- What one code makes of the status so far.
abbrev pub worsen : Status → Status → Status
worsen code_status status =
    if is_unhealthy code_status
    then unhealthy
    else if is_degraded code_status && is_healthy status
    then degraded
    else status

module _ {F : Type 0} (fl : Floats F) where
  abbrev pub zero_float : F
  zero_float = fl.literal 0 0

  -- degraded above 0%, unhealthy from 10%
  abbrev pub strict_status : F → Status
  strict_status percentage =
      if fl.le (fl.literal 10 0) percentage
      then unhealthy
      else if fl.lt zero_float percentage
      then degraded
      else healthy

  -- degraded from 10%, unhealthy from 20%
  abbrev pub lenient_status : F → Status
  lenient_status percentage =
      if fl.le (fl.literal 20 0) percentage
      then unhealthy
      else if fl.le (fl.literal 10 0) percentage
      then degraded
      else healthy

  unfoldable pub get_status_for_code_ratio : String → String → F → Status
  get_status_for_code_ratio protocol code ratio =
      let percentage = fl.times ratio (fl.literal 100 0) in
      if protocol == "http"
      then (if code == "-"
          then strict_status percentage
          else if class_of b'5' code
          then strict_status percentage
          else if class_of b'4' code
          then lenient_status percentage
          else healthy)
      else if protocol == "grpc"
      then (if code != "0" then strict_status percentage else healthy)
      else healthy

  unfoldable pub sum_counts : F → Assoc F → F
  sum_counts total [] = total
  sum_counts total ((code, count) ∷ codes) = sum_counts (fl.plus total count) codes

  -- One round of the inner loop, which tracks the status and the worst ratio.
  unfoldable pub next_code : String → F → String × F → Status × F → Status × F
  next_code protocol total c (status, worst) =
      let ratio = fl.divided c.1 total in
      if is_error_code protocol c.0
      then (
        worsen (get_status_for_code_ratio protocol c.0 ratio) status,
        (if fl.lt worst ratio then ratio else worst),
      )
      else (status, worst)

  -- The inner loop over the codes of a protocol.
  unfoldable pub process_codes : String → F → Assoc F → Status × F → Status × F
  process_codes protocol total [] acc = acc
  process_codes protocol total (c ∷ codes) acc =
      process_codes protocol total codes (next_code protocol total c acc)

  unfoldable pub process_requests : Assoc (Assoc F) → Status × F → Status × F
  unfolding sum_counts process_codes next_code is_error_code get_status_for_code_ratio
  process_requests [] acc = acc
  process_requests ((protocol, codes) ∷ requests) acc =
      let total = sum_counts zero_float codes in
      process_requests requests
        (if fl.eq total zero_float then acc else process_codes protocol total codes acc)

  -- The status, and the worst ratio.
  unfoldable pub evaluate_request_health : RequestHealth F → Status × F
  unfolding process_requests
  evaluate_request_health req =
      process_requests req.outbound (process_requests req.inbound (healthy, zero_float))

  unfoldable pub has_any_requests : RequestHealth F → Bool
  has_any_requests req =
      let some_count = λ (codes : String × Assoc F). any (λ c. fl.lt zero_float c.1) codes.1 in
      if any some_count req.inbound
      then true
      else if any some_count req.outbound
      then true
      else false

  -- All requests, and those with an error code.
  unfoldable pub count_codes : String → Assoc F → F × F → F × F
  count_codes protocol [] acc = acc
  count_codes protocol ((code, count) ∷ codes) (total, errors) =
      count_codes protocol codes (
        fl.plus total count,
        (if is_error_code protocol code then fl.plus errors count else errors),
      )

  unfoldable pub count_requests : Assoc (Assoc F) → F × F → F × F
  unfolding count_codes
  count_requests [] acc = acc
  count_requests ((protocol, codes) ∷ requests) acc =
      count_requests requests (count_codes protocol codes acc)

  unfoldable pub calculate_error_rate : RequestHealth F → F
  unfolding count_requests
  calculate_error_rate req =
      let (total, errors) =
        count_requests req.outbound (count_requests req.inbound (zero_float, zero_float)) in
      if fl.eq total zero_float then zero_float else fl.divided errors total
