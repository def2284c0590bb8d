-- ===== src/Modbus/Names.antt =====
-- Status codes, exception names and the text of a result.
use Prim.Native.String.{◌++◌ as ◌+++◌}
use ros2_wavemakers.Base.{
  Bool, String, [], false, get_or, if◌then◌else◌, refl, true, ℕ, ◌%◌, ◌/◌, ◌==◌, ◌∷◌, ◌≡◌,
}

pub data Status : Type 0 where
  okay not_connected socket_error timeout protocol_error modbus_exception bad_argument : Status

unfoldable pub status_name : Status → String
status_name okay = "ok"
status_name not_connected = "not connected"
status_name socket_error = "socket error"
status_name timeout = "timeout"
status_name protocol_error = "protocol error"
status_name modbus_exception = "modbus exception"
status_name bad_argument = "bad argument"

unfoldable pub modbus_exception_name : ℕ → String
modbus_exception_name code =
    if code == 0x01
    then "illegal function"
    else if code == 0x02
    then "illegal data address"
    else if code == 0x03
    then "illegal data value"
    else if code == 0x04
    then "slave device failure"
    else if code == 0x05
    then "acknowledge"
    else if code == 0x06
    then "slave device busy"
    else if code == 0x08
    then "memory parity error"
    else if code == 0x0A
    then "gateway path unavailable"
    else if code == 0x0B
    then "gateway target device failed to respond"
    else "unknown exception"

pub record Result : Type 0 where
  pub status : Status
  pub mb_exception : ℕ

-- `{}` and `{status}`.
abbrev pub success : Result
success = record { status = okay; mb_exception = 0 }

abbrev pub failure : Status → Result
failure s = record { status = s; mb_exception = 0 }

-- `operator bool`.
abbrev pub is_okay : Status → Bool
is_okay okay = true
is_okay _ = false

abbrev pub succeeded : Result → Bool
succeeded r = is_okay r.status

-- `r.status == Status::SocketError || r.status == Status::ProtocolError`.
abbrev pub is_broken : Status → Bool
is_broken socket_error = true
is_broken protocol_error = true
is_broken _ = false

hex_digit : ℕ → String
hex_digit n =
    get_or
      ("0" ∷ "1" ∷ "2" ∷ "3" ∷ "4" ∷ "5" ∷ "6" ∷ "7" ∷ "8" ∷ "9" ∷ "A" ∷ "B" ∷ "C" ∷ "D" ∷ "E" ∷ "F"
        ∷ [])
      n ""

exception_text : Status → ℕ → String
unfolding hex_digit modbus_exception_name
exception_text modbus_exception code =
    " 0x"
    +++ hex_digit (code / 16 % 16)
    +++ hex_digit (code % 16)
    +++ " ("
    +++ modbus_exception_name code
    +++ ")"
exception_text _ code = ""

unfoldable pub message : Result → String
unfolding status_name exception_text
message r = status_name r.status +++ exception_text r.status r.mb_exception

message_example :
    message (record { status = modbus_exception; mb_exception = 0x0B })
    ≡ "modbus exception 0x0B (gateway target device failed to respond)"
unfolding message
message_example = refl
