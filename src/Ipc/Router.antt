-- ===== src/Ipc/Router.antt =====
-- server/internal/ipc/router.go, and the answers of `Session.Serve` in session.go.
use sshbackup.Common.{
  String, ◌<>◌, quote, ℤ, pos, negsuc, itoa_ℤ, ◌==◌, Bool, true, false, Option, none, some, List,
  [], ◌∷◌, str_eq, if◌then◌else◌,
}
use sshbackup.Common.Action.{Action}
use sshbackup.Ipc.Envelope.{
  Envelope, MessageType, request, response, protocol_version, new_success_response,
  new_error_response,
}

-- The error of a handler: the first `*domain.CodedError` on its chain, and the whole text.
pub record HandlerError : Type 0 where
  pub coded : Option (String × String)
  pub text : String

abbrev pub equal_ints : ℤ → ℤ → Bool
equal_ints (pos a) (pos b) = a == b
equal_ints (negsuc a) (negsuc b) = a == b
equal_ints _ _ = false

-- A handler's outcome: a payload, already encoded, or an error.
pub data Outcome (Raw : Type 0) : Type 0 where
  answered : Raw → Outcome Raw
  failed : HandlerError → Outcome Raw

-- `HandlerFunc`.
abbrev pub HandlerFunc : Type 0 → Type 0 → Type 0
HandlerFunc W Raw = Option Raw → Action W (Outcome Raw)

abbrev pub is_request : MessageType → Bool
is_request request = true
is_request response = false
is_request _ = false

module _ {Raw : Type 0} where
  -- The response to what a handler comes to.
  abbrev pub respond : String → Outcome Raw → Envelope Raw
  respond id (answered payload) = new_success_response id payload
  respond id (failed e) = elim e.coded [
    | some (code, message) ↦ new_error_response id code message
    | none ↦ new_error_response id "INTERNAL_ERROR" "an internal error occurred"
  ]

-- The connection of a session: the outcome of `WriteEnvelope`, the error that reading ends with,
-- and what `writeErrCh` holds, the error of a pushed event that could not be written.
pub record Connection (W Raw : Type 0) : Type 0 where
  pub write : Envelope Raw → Action W (Option HandlerError)
  pub push_error : Action W (Option HandlerError)
  pub read_error : HandlerError

-- What `Session.Serve` returned with, and in which of its three ways.
pub data Stop : Type 0 where
  read_failed : HandlerError → Stop
  write_failed : HandlerError → Stop
  push_failed : HandlerError → Stop

-- The responses that were written, the envelopes that were not read, and how it stopped.
pub record Served (Raw : Type 0) : Type 0 where
  pub written : List (Envelope Raw)
  pub unread : List (Envelope Raw)
  pub stop : Stop

module _ {W Raw : Type 0} where
  -- The map of handlers: `Handle` puts the newer one in front.
  abbrev pub handle :
      String
      → HandlerFunc W Raw
      → List (String × HandlerFunc W Raw)
      → List (String × HandlerFunc W Raw)
  handle command fn handlers = (command, fn) ∷ handlers

  abbrev pub handler_of : String → List (String × HandlerFunc W Raw) → Option (HandlerFunc W Raw)
  handler_of command [] = none
  handler_of command ((c, fn) ∷ rest) =
      if str_eq c command then some fn else handler_of command rest

  unfoldable pub run_handler : Option (HandlerFunc W Raw) → Envelope Raw → Action W (Envelope Raw)
  run_handler none env w = (
    new_error_response env.id "UNSUPPORTED_COMMAND" ("unsupported command " <> quote env.command),
    w,
  )
  run_handler (some fn) env w = let (outcome, w') = fn env.payload w in (respond env.id outcome, w')

  -- `Router.Dispatch`; the call of `onError`, which logs, is left out.
  unfoldable pub dispatch :
      List (String × HandlerFunc W Raw) → Envelope Raw → Action W (Envelope Raw)
  unfolding run_handler
  dispatch handlers env w =
      let ran = run_handler (handler_of env.command handlers) env w in
      if equal_ints env.protocol_version protocol_version then ran else (
        new_error_response env.id "PROTOCOL_VERSION_MISMATCH" (
            "protocol version mismatch: service supports "
            <> itoa_ℤ protocol_version
            <> ", client sent "
            <> itoa_ℤ env.protocol_version
            <> "; please update the application"),
        w,
      )

  abbrev pub written_before : Envelope Raw → Served Raw × W → Served Raw × W
  written_before reply (served, w) = (record served { written = reply ∷ served.written }, w)

  -- The end of a round after the response was written, with the state that the rest starts in.
  abbrev pub after_push :
      Envelope Raw → List (Envelope Raw) → Served Raw × W → Option HandlerError × W → Served Raw × W
  after_push reply envs rest (none, w) = written_before reply rest
  after_push reply envs rest (some e, w) =
      (record { written = reply ∷ []; unread = envs; stop = push_failed e }, w)

  abbrev pub after_write :
      List (Envelope Raw) → Served Raw × W → Option HandlerError × W → Served Raw × W
  after_write envs rest (none, w) = rest
  after_write envs rest (some e, w) =
      (record { written = []; unread = envs; stop = write_failed e }, w)

  -- The loop of `Session.Serve` over the envelopes that can be read: what is not a request is passed
  -- over, each request is answered before the next is read, and the loop ends at the first error.
  unfoldable pub serve :
      Connection W Raw
      → List (String × HandlerFunc W Raw)
      → List (Envelope Raw)
      → Action W (Served Raw)
  serve io handlers [] w =
      (record { written = []; unread = []; stop = read_failed io.read_error }, w)
  serve io handlers (env ∷ envs) w =
      let (reply, dispatched) = dispatch handlers env w in
      let (failure, sent) = io.write reply dispatched in
      let (pushed, checked) = io.push_error sent in
      let rest = serve io handlers envs checked in
      let passed = serve io handlers envs w in
      if is_request env.message_type
      then after_write envs (after_push reply envs rest (pushed, checked)) (failure, sent)
      else passed
