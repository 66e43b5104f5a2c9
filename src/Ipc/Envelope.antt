-- ===== src/Ipc/Envelope.antt =====
-- server/internal/ipc/envelope.go and the constructors of codec.go. JSON is a parameter: `Raw` is
-- the type of encoded payloads.
use sshbackup.Common.{String, ℤ, pos, Bool, true, false, Option, none, some}

pub data MessageType : Type 0 where
  request response event : MessageType
  other_message_type : String → MessageType

pub record ErrorPayload : Type 0 where
  pub code : String
  pub message : String

pub record Envelope (Raw : Type 0) : Type 0 where
  pub message_type : MessageType
  pub id : String
  pub protocol_version : ℤ
  pub command : String
  pub event_name : String
  pub success : Option Bool
  pub payload : Option Raw
  pub error : Option ErrorPayload

-- `ProtocolVersion`.
abbrev pub protocol_version : ℤ
protocol_version = pos 1

module _ {Raw : Type 0} where
  -- `NewRequest`.
  abbrev pub new_request : String → String → Raw → Envelope Raw
  new_request id command payload = record {
    message_type = request;
    id = id;
    protocol_version = protocol_version;
    command = command;
    event_name = "";
    success = none;
    payload = some payload;
    error = none;
  }

  -- `NewSuccessResponse`.
  abbrev pub new_success_response : String → Raw → Envelope Raw
  new_success_response id payload = record {
    message_type = response;
    id = id;
    protocol_version = pos 0;
    command = "";
    event_name = "";
    success = some true;
    payload = some payload;
    error = none;
  }

  -- `NewErrorResponse`.
  abbrev pub new_error_response : String → String → String → Envelope Raw
  new_error_response id code message = record {
    message_type = response;
    id = id;
    protocol_version = pos 0;
    command = "";
    event_name = "";
    success = some false;
    payload = none;
    error = some (record { code = code; message = message });
  }

  -- `NewEvent`.
  abbrev pub new_event : String → Raw → Envelope Raw
  new_event name payload = record {
    message_type = event;
    id = "";
    protocol_version = pos 0;
    command = "";
    event_name = name;
    success = none;
    payload = some payload;
    error = none;
  }
