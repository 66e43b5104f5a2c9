-- ===== src/Ipc/Answers.antt =====
-- What the responses of server/internal/ipc/router.go and session.go answer.
use sshbackup.Common.{
  ◌≡◌, refl, String, true, false, Option, none, some, List, [], ◌∷◌, if◌then◌else◌, Bool-cases,
  Option-cases, inl, inr, ◌⊎◌,
}
use sshbackup.Ipc.Envelope.{Envelope, ErrorPayload, response, protocol_version, new_error_response}
use sshbackup.Ipc.Router.{
  Outcome, answered, failed, HandlerFunc, equal_ints, handler_of, is_request, respond, run_handler,
  dispatch, serve, HandlerError, Connection, Stop, read_failed, write_failed, push_failed, Served,
  after_push, after_write,
}

-- A response that carries an identifier, and a payload or an error, but not both.
pub record IsResponseTo {Raw : Type 0} (id : String) (r : Envelope Raw) : Type 0 where
  pub typed : r.message_type ≡ response
  pub identified : r.id ≡ id
  pub one_of :
      ((r.success ≡ some true) × ((p : Raw) × (r.payload ≡ some p)) × (r.error ≡ none))
      ⊎ ((r.success ≡ some false) × (r.payload ≡ none) × ((e : ErrorPayload) × (r.error ≡ some e)))

-- The requests among some envelopes, and responses that answer them one for one.
abbrev pub requests : {Raw : Type 0} → List (Envelope Raw) → List (Envelope Raw)
requests [] = []
requests (env ∷ envs) =
    let rest = requests envs in if is_request env.message_type then env ∷ rest else rest

-- The responses answer the first of the requests, one for one; `unread` are those that were not
-- read. If reading failed, every request is answered; if a write failed, the last one that was read
-- is the only one that is not; and if a pushed event failed, every one that was read is.
abbrev pub AnswerEach :
    {Raw : Type 0} → Stop → List (Envelope Raw) → List (Envelope Raw) → List (Envelope Raw) → Type 0
AnswerEach stop (q ∷ qs) unread (r ∷ rs) = IsResponseTo q.id r × AnswerEach stop qs unread rs
AnswerEach stop [] unread (r ∷ rs) = ⊥
AnswerEach (read_failed e) qs unread [] = (qs ≡ []) × (unread ≡ [])
AnswerEach (write_failed e) qs unread [] = (q : Envelope _) × (qs ≡ q ∷ unread)
AnswerEach (push_failed e) qs unread [] = qs ≡ unread

refused-IsResponseTo :
    {Raw : Type 0} (id code message : String)
    → IsResponseTo id (new_error_response {Raw = Raw} id code message)
refused-IsResponseTo id code message = record {
  typed = refl;
  identified = refl;
  one_of = inr (refl, refl, (record { code = code; message = message }, refl));
}

respond-IsResponseTo :
    {Raw : Type 0} (id : String) (o : Outcome Raw) → IsResponseTo id (respond id o)
respond-IsResponseTo id (answered p) = record {
  typed = refl;
  identified = refl;
  one_of = inl (refl, (p, refl), refl);
}
respond-IsResponseTo id (failed e) = elim (Option-cases e.coded) [
  | inl h ↦ simp h (refused-IsResponseTo id _ _)
  | inr (c, h) ↦ simp h (refused-IsResponseTo id _ _)
]

module _ {W Raw : Type 0} (handlers : List (String × HandlerFunc W Raw)) where
  run-IsResponseTo :
      (fn : Option (HandlerFunc W Raw)) (env : Envelope Raw) (w : W)
      → IsResponseTo env.id (run_handler fn env w).0
  unfolding run_handler
  run-IsResponseTo none env w = refused-IsResponseTo env.id _ _
  run-IsResponseTo (some fn) env w = respond-IsResponseTo env.id (fn env.payload w).0

  dispatch-IsResponseTo :
      (env : Envelope Raw) (w : W) → IsResponseTo env.id (dispatch handlers env w).0
  unfolding dispatch
  dispatch-IsResponseTo env w =
      elim (Bool-cases (equal_ints env.protocol_version protocol_version)) [
        | inl h ↦ simp h (run-IsResponseTo (handler_of env.command handlers) env w)
        | inr h ↦ simp h (refused-IsResponseTo env.id _ _)
      ]

  pushed_answers :
      (q : Envelope Raw) (envs : List (Envelope Raw)) (reply : Envelope Raw) (rest : Served Raw × W)
      (pushed : Option HandlerError × W)
      → IsResponseTo q.id reply
      → AnswerEach rest.0.stop (requests envs) (requests rest.0.unread) rest.0.written
      → AnswerEach
          (after_push reply envs rest pushed).0.stop
          (q ∷ requests envs)
          (requests (after_push reply envs rest pushed).0.unread)
          (after_push reply envs rest pushed).0.written
  pushed_answers q envs reply rest (none, w) a h = (a, h)
  pushed_answers q envs reply rest (some e, w) a h = (a, refl)

  written_answers :
      (q : Envelope Raw) (envs : List (Envelope Raw)) (rest : Served Raw × W)
      (sent : Option HandlerError × W)
      → AnswerEach rest.0.stop (q ∷ requests envs) (requests rest.0.unread) rest.0.written
      → AnswerEach
          (after_write envs rest sent).0.stop
          (q ∷ requests envs)
          (requests (after_write envs rest sent).0.unread)
          (after_write envs rest sent).0.written
  written_answers q envs rest (none, w) h = h
  written_answers q envs rest (some e, w) h = (q, refl)

  -- Whatever the handlers do and whichever write fails: the responses that a session has written
  -- answer the requests that it read one for one, in their order, each with the request's identifier
  -- and with a payload or an error, never both and never neither. Every request that was read is
  -- answered, but the last one if its response could not be written; and if the session ends because
  -- nothing more can be read, every request was read.
  pub serve-AnswerEach :
      (io : Connection W Raw) (envs : List (Envelope Raw)) (w : W)
      → AnswerEach
          (serve io handlers envs w).0.stop
          (requests envs)
          (requests (serve io handlers envs w).0.unread)
          (serve io handlers envs w).0.written
  unfolding serve
  serve-AnswerEach io [] w = (refl, refl)
  serve-AnswerEach io (env ∷ envs) w = elim (Bool-cases (is_request env.message_type)) [
    | inl h ↦
        let (reply, dispatched) = dispatch handlers env w in
        let (failure, sent) = io.write reply dispatched in
        let (pushed, checked) = io.push_error sent in
        let rest = serve io handlers envs checked in
        simp h (
          written_answers env envs (after_push reply envs rest (pushed, checked)) (failure, sent)
            (pushed_answers env envs reply rest (pushed, checked) (dispatch-IsResponseTo env w)
              (serve-AnswerEach io envs checked)))
    | inr h ↦ simp h (serve-AnswerEach io envs w)
  ]
