-- ===== src/Connection/Failure.antt =====
-- What the adapter makes of the errors of a connection: `isTerminatedSession` of session-recovery.ts,
-- `isUnauthorizedHttpError` and `isTransientHttpConnectError` of server-manager.ts, and
-- `shouldReconnectAfterRefresh` of lifecycle.ts.
use Prim.Native.Char.{code}
use text.Mathlib.Text.{starts_with}
use mcp_adapter.Prelude.{
  ℕ, String, Bool, true, false, ◌==◌, ◌&&◌, ◌||◌, if◌then◌else◌, nat_beq, leb,
}

-- The code of a JSON-RPC error: `pos n` is n and `negsuc n` is -(n + 1).
pub data ℤ : Type 0 where
  pos negsuc : ℕ → ℤ

pub data SdkErrorCode : Type 0 where
  not_connected connection_closed other_code : SdkErrorCode

-- The classes that the code tells apart with `instanceof`.
pub data ErrorClass : Type 0 where
  http_error : (status : ℕ) → ErrorClass
  protocol_error : (code : ℤ) → ErrorClass
  sdk_error : (code : SdkErrorCode) → ErrorClass
  unauthorized_error plain_error : ErrorClass

-- A thrown value: an `Error` with its message and its cause, or anything else.
pub data Failure : Type 0 where
  no_error : Failure
  error : (class : ErrorClass) (message : String) (cause : Failure) → Failure

-- `\s` of a regular expression.
abbrev pub is_space : ℕ → Bool
is_space c =
    (leb 9 c && leb c 13)
    || nat_beq c 32
    || nat_beq c 160
    || nat_beq c 0x1680
    || (leb 0x2000 c && leb c 0x200a)
    || nat_beq c 0x2028
    || nat_beq c 0x2029
    || nat_beq c 0x202f
    || nat_beq c 0x205f
    || nat_beq c 0x3000
    || nat_beq c 0xfeff

unfoldable pub skip_spaces : String → String
skip_spaces String.[] = String.[]
skip_spaces (String.◌∷◌ c s) =
    let rest = skip_spaces s in if is_space (code c) then rest else String.◌∷◌ c s

-- What is left of a text after a prefix that it has.
after_prefix : String → String → String
after_prefix String.[] s = s
after_prefix (String.◌∷◌ p ps) String.[] = String.[]
after_prefix (String.◌∷◌ p ps) (String.◌∷◌ c s) = after_prefix ps s

-- `/key\s*:\s*value/` at the start of a text.
member_here : String → String → String → Bool
unfolding skip_spaces after_prefix
member_here key value s =
    let colon = skip_spaces (after_prefix key s) in
    starts_with s key
    && starts_with colon ":"
    && starts_with (skip_spaces (after_prefix ":" colon)) value

-- The same, anywhere in the text.
has_member : String → String → String → Bool
unfolding member_here
has_member key value String.[] = member_here key value String.[]
has_member key value (String.◌∷◌ c s) =
    let later = has_member key value s in member_here key value (String.◌∷◌ c s) || later

is_connection_closed : ℤ → Bool
is_connection_closed (pos n) = false
is_connection_closed (negsuc n) = nat_beq n 31999

is_server_not_initialized_message : String → Bool
is_server_not_initialized_message message =
    message == "Server not initialized" || message == "Bad Request: Server not initialized"

unfoldable pub is_terminated_session : Failure → Bool → Bool
unfolding has_member is_connection_closed is_server_not_initialized_message
is_terminated_session failure false = false
is_terminated_session (error (http_error status) message cause) true =
    nat_beq status 404
    || (nat_beq status 400
        && has_member "\"code\"" "-32000" message
        && has_member "\"message\"" "\"Bad Request: Server not initialized\"" message)
is_terminated_session (error (protocol_error code) message cause) true =
    is_connection_closed code && is_server_not_initialized_message message
is_terminated_session failure true = false

abbrev is_plain_unauthorized : String → Bool
is_plain_unauthorized message = starts_with message "Error POSTing to endpoint (HTTP 401):"

unfoldable pub is_unauthorized_http_error : Failure → Bool
is_unauthorized_http_error no_error = false
is_unauthorized_http_error (error unauthorized_error message cause) = true
is_unauthorized_http_error (error (http_error status) message cause) =
    nat_beq status 401 || is_plain_unauthorized message
is_unauthorized_http_error (error class message cause) = is_plain_unauthorized message

-- The loop along the causes.
unfoldable pub is_transient_http_connect_error : Failure → Bool
is_transient_http_connect_error no_error = false
is_transient_http_connect_error (error (http_error status) message cause) =
    let rest = is_transient_http_connect_error cause in nat_beq status 503 || rest
is_transient_http_connect_error (error class message cause) = is_transient_http_connect_error cause

is_lost_connection : Failure → Bool
is_lost_connection (error (sdk_error not_connected) message cause) = true
is_lost_connection (error (sdk_error connection_closed) message cause) = true
is_lost_connection failure = false

-- The last argument is `definition.auth === "bearer"`.
unfoldable pub should_reconnect_after_refresh : Failure → Bool → Bool → Bool
unfolding is_terminated_session is_unauthorized_http_error is_lost_connection
should_reconnect_after_refresh failure had_session_id bearer =
    is_terminated_session failure had_session_id
    || (bearer && is_unauthorized_http_error failure)
    || is_lost_connection failure
