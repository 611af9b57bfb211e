-- ===== src/Store/Actor/Frames.antt =====
-- The operations on workspaces and sessions, and the queries, leave executions and events alone.
use loomterm.Prelude.{
  ℕ, String, ◌∙◌, if◌then◌else◌, Option-cases, ◌≡◌, refl, Bool, true, false, Option, arith,
}
use loomterm.Result.{FilePath, Error, Result, ok, err}
use loomterm.Result.Run.{Action, pure, lift, or_not_found, continue, ◌>>=◌}
use loomterm.Model.Session.{
  AgentSessionRequest, AgentSessionFinish, AgentEventRequest, AgentEvent, prompt_submitted,
  tool_started, tool_finished, turn_finished, AgentAction, AgentTurn,
}
use loomterm.Store.Tables.{Db, SessionRow, find_session}
use loomterm.Store.Journal.{journal}
use loomterm.Store.Keeps.{Keeps}
use loomterm.Store.Workspaces.{FileSystem, add_workspace, register, remove_workspace, get_workspace}
use loomterm.Store.Sessions.{
  create_agent_session, finish_agent_session, close_session, read_session, insert_session,
}
use loomterm.Store.Sessions.Turns.{find_or_create_agent_turn, get_agent_turn, insert_agent_turn}
use loomterm.Store.Sessions.Events.{
  record_agent_event, apply_event, submit_prompt, open_turn, upsert_action,
}
use loomterm.Store.Executions.{get_agent_session_record}

-- `m` touches neither table.
pub record Frames {A : Type 0} (m : Action Db A) : Type 0 where
  pub executions : (db : Db) → (m db).1.executions ≡ db.executions
  pub events : (db : Db) → (m db).1.events ≡ db.events

register-Frames :
    (fs : FileSystem) (now : ℕ) (id name : String) (root : FilePath)
    → Frames (register fs now id name root)
unfolding register
register-Frames fs now id name root = record {
  executions = λ db. ground arith;
  events = λ db. ground arith;
}

pub remove_workspace-Frames : (identifier : String) → Frames (remove_workspace identifier)
unfolding remove_workspace
remove_workspace-Frames identifier = record {
  executions = λ db. ground arith;
  events = λ db. ground arith;
}

insert_session-Frames : (row : SessionRow) → Frames (insert_session row)
unfolding insert_session
insert_session-Frames row = record { executions = λ db. ground arith; events = λ db. ground arith }

upsert_action-Frames :
    (row : AgentAction) (f : AgentAction → AgentAction) → Frames (upsert_action row f)
unfolding upsert_action
upsert_action-Frames row f = record { executions = λ db. ground arith; events = λ db. ground arith }

find_or_create-Frames :
    (id : String) (request : AgentEventRequest) (now : ℕ)
    → Frames (find_or_create_agent_turn id request now)
unfolding find_or_create_agent_turn
find_or_create-Frames id request now = record {
  executions = λ db. ground arith;
  events = λ db. ground arith;
}

get_agent_turn-Frames : (id : String) → Frames (get_agent_turn id)
unfolding get_agent_turn
get_agent_turn-Frames id = record { executions = λ db. ground arith; events = λ db. ground arith }

open_turn-Frames :
    (now : ℕ) (id : String) (request : AgentEventRequest) (prompt : String)
    → Frames (open_turn now id request prompt)
unfolding open_turn insert_agent_turn get_agent_turn
open_turn-Frames now id request prompt = record {
  executions = λ db. ground arith;
  events = λ db. ground arith;
}

pub Frames-pure : {A : Type 0} (a : A) → Frames (pure a)
Frames-pure a = record { executions = λ db. refl; events = λ db. refl }

pub Frames-lift : {A : Type 0} (r : Result A) → Frames (lift r)
Frames-lift r = record { executions = λ db. refl; events = λ db. refl }

pub Frames-query :
    {A : Type 0} (e : Error) (q : Db → Option A) → Frames (λ db. or_not_found e (q db) db)
Frames-query e q = record {
  executions = λ db. ground (arith, Option-cases (q db));
  events = λ db. ground (arith, Option-cases (q db));
}

-- What writes neither table: the result and what it leaves are written out.
Frames-write :
    {A : Type 0} (m : Action Db A)
    → ((db : Db) → (m db).1.executions ≡ db.executions)
    → ((db : Db) → (m db).1.events ≡ db.events)
    → Frames m
Frames-write m x e = record { executions = x; events = e }

continue-Frames :
    {A B : Type 0} (r : Result A) (db : Db) (f : A → Action Db B)
    → ((a : A) → Frames (f a))
    → ((continue r db f).1.executions ≡ db.executions) × ((continue r db f).1.events ≡ db.events)
continue-Frames (ok a) db f h = ((h a).executions db, (h a).events db)
continue-Frames (err e) db f h = (refl, refl)

pub Frames-bind :
    {A B : Type 0} (m : Action Db A) (f : A → Action Db B)
    → Frames m
    → ((a : A) → Frames (f a))
    → Frames (m >>= f)
Frames-bind m f hm hf = record {
  executions = λ db. (continue-Frames (m db).0 (m db).1 f hf).0 ∙ hm.executions db;
  events = λ db. (continue-Frames (m db).0 (m db).1 f hf).1 ∙ hm.events db;
}

pub Frames-if :
    {A : Type 0} (b : Bool) (m n : Action Db A) → Frames m → Frames n → Frames (if b then m else n)
Frames-if true m n hm hn = hm
Frames-if false m n hm hn = hn

pub ruleset frames_rules = (Frames-pure, Frames-lift, Frames-query, Frames-bind, Frames-if)

-- Such an action keeps the journals consistent.
pub Frames-Keeps : {A : Type 0} (m : Action Db A) → Frames m → Keeps m
unfolding journal
Frames-Keeps m h = record {
  at = λ db c. record {
    unique = rw (h.executions db) c.unique;
    journals = λ id. rw (h.executions db, h.events db) (c.journals id);
    readable = rw (h.events db) c.readable;
  };
}

pub add_workspace-Frames :
    (fs : FileSystem) (now : ℕ) (id name : String) (path : FilePath)
    → Frames (add_workspace fs now id name path)
unfolding add_workspace
add_workspace-Frames fs now id name path = search (frames_rules, register-Frames)

pub get_session_record-Frames : (id : String) → Frames (get_agent_session_record id)
get_session_record-Frames id = Frames-query _ (find_session id)

pub get_workspace-Frames : (identifier : String) → Frames (get_workspace identifier)
unfolding get_workspace
get_workspace-Frames identifier = Frames-bind _ _ (Frames-query _ _) λ row. Frames-pure _

pub read_session-Frames : (id : String) → Frames (read_session id)
unfolding read_session
read_session-Frames id = Frames-bind _ _ (get_session_record-Frames id) λ row. Frames-pure _

pub create_agent_session-Frames :
    (fs : FileSystem) (parse_path : String → FilePath) (now : ℕ) (request : AgentSessionRequest)
    → Frames (create_agent_session fs parse_path now request)
unfolding create_agent_session
create_agent_session-Frames fs parse_path now request =
    search (frames_rules, get_workspace-Frames, insert_session-Frames, read_session-Frames) depth 12

close_session-Frames :
    (now : ℕ) (id : String) (finish : AgentSessionFinish) → Frames (close_session now id finish)
unfolding close_session
close_session-Frames now id finish = record {
  executions = λ db. (read_session-Frames id).executions _;
  events = λ db. (read_session-Frames id).events _;
}

pub finish_agent_session-Frames :
    (now : ℕ) (id : String) (finish : AgentSessionFinish)
    → Frames (finish_agent_session now id finish)
unfolding finish_agent_session
finish_agent_session-Frames now id finish =
    search (frames_rules, read_session-Frames, close_session-Frames)

submit_prompt-Frames :
    (now : ℕ) (id : String) (request : AgentEventRequest) (prompt : String)
    → Frames (submit_prompt now id request prompt)
unfolding submit_prompt
submit_prompt-Frames now id request prompt = record {
  executions = λ db. (open_turn-Frames now id request prompt).executions _;
  events = λ db. (open_turn-Frames now id request prompt).events _;
}

upsert_for-Frames :
    (turn : AgentTurn) (row : AgentAction) (f : AgentAction → AgentAction)
    → Frames (upsert_action row f >>= λ done. pure turn)
upsert_for-Frames turn row f =
    Frames-bind (upsert_action row f) _ (upsert_action-Frames row f) λ done. Frames-pure turn

apply_event-Frames :
    (now : ℕ) (id row : String) (session : SessionRow) (request : AgentEventRequest)
    (event : AgentEvent)
    → Frames (apply_event now id row session request event)
unfolding apply_event
apply_event-Frames now id row session request (prompt_submitted prompt) =
    submit_prompt-Frames now id request prompt
apply_event-Frames now id row session request (tool_started action_id tool_name) =
    Frames-bind _ _ (find_or_create-Frames id request now)
      λ turn. Frames-bind _ _ (upsert_action-Frames _ _) λ done. Frames-pure turn
apply_event-Frames now id row session request (tool_finished action_id tool_name has_failed link) =
    Frames-bind _ _ (find_or_create-Frames id request now) λ turn. record {
      executions = λ db. (upsert_for-Frames turn _ _).executions db;
      events = λ db. (upsert_for-Frames turn _ _).events db;
    }
apply_event-Frames now id row session request (turn_finished has_failed message) =
    Frames-bind _ _ (find_or_create-Frames id request now) λ turn. record {
      executions = λ db. (get_agent_turn-Frames turn.id).executions _;
      events = λ db. (get_agent_turn-Frames turn.id).events _;
    }

pub record_agent_event-Frames :
    (now : ℕ) (id row : String) (request : AgentEventRequest)
    → Frames (record_agent_event now id row request)
unfolding record_agent_event
record_agent_event-Frames now id row request =
    search (frames_rules, get_session_record-Frames, apply_event-Frames)
