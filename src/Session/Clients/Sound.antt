-- ===== src/Session/Clients/Sound.antt =====
-- The engine of an XHTTP client is destroyed after the Close of each of its sessions is over.
use cronet_go.Base.{
  ℕ, ◌+◌, ◌≡◌, refl, sym, subst, List, [], ◌∷◌, ◌++◌, Bool, true, false, not, ◌||◌, arith, if_elim,
  All, ◌==◌,
}
use cronet_go.Session.Clients.{
  XSession, Stage, serving, closing, waiting_relays, waiting_tasks, finished, XClient, new_client,
  new_session, set_error, close_next, await_session, any_awaited, at_session, advance, XEvent,
  dials, advances, relay_begins, relay_ends, task_begins, task_ends, fails, ends_upload, goes_on,
  uses_engine, waits_for, is_serving, uses, xstep, xrun,
}
use cronet_go.Session.Clients.Parts.{
  Fine, Done, set_error-Fine, close_next-Fine, await_session-Fine, upload_ended-Fine,
  new_session-Fine, close_next-Done, await_session-Done, All-at_session, All-append_one,
  snapshot-Fine, none_awaited-Done, uses-Done,
}

abbrev pub past_engine : Stage → Bool
past_engine serving = false
past_engine closing = false
past_engine other = true

abbrev pub past_relays : Stage → Bool
past_relays waiting_tasks = true
past_relays finished = true
past_relays other = false

-- What holds of a client, its sessions and the goroutines.
pub record Safe (c : XClient) : Type 0 where
  pub sessions : All (Fine (not (is_serving c.stage))) c.sessions
  pub destroyed : c.engine_destroyed ≡ true → (past_engine c.stage ≡ true) × All Done c.sessions
  pub unused : c.after_destroy ≡ 0
  pub no_relays : c.engine_destroyed ≡ true → past_relays c.stage ≡ true → c.relays ≡ 0
  pub no_tasks : c.executor_destroyed ≡ true → c.tasks ≡ 0
  pub owned : past_engine c.stage ≡ true → c.engine_destroyed ≡ c.owns_engine
  pub executor : c.stage ≡ finished → c.executor_destroyed ≡ c.owns_executor
  pub early : c.executor_destroyed ≡ true → c.stage ≡ finished

-- A change of one session.
change-Safe :
    (n : ℕ) (f : XSession → XSession) (c : XClient)
    → ((b : Bool) (s : XSession) → Fine b s → Fine b (f s))
    → ((s : XSession) → Done s → Done (f s))
    → Safe c
    → Safe (record c { sessions = at_session n f c.sessions })
change-Safe n f c fine done v = record {
  sessions =
      All-at_session (Fine (not (is_serving c.stage))) n f c.sessions
        (fine (not (is_serving c.stage))) v.sessions;
  destroyed = λ e. let d = v.destroyed e in (d.0, All-at_session Done n f c.sessions done d.1);
  unused = v.unused;
  no_relays = v.no_relays;
  no_tasks = v.no_tasks;
  owned = v.owned;
  executor = v.executor;
  early = v.early;
}

advance-Safe : (c : XClient) (st : Stage) → c.stage ≡ st → Safe c → Safe (advance c st)
unfolding advance
advance-Safe c serving e v = record {
  sessions =
      snapshot-Fine c.sessions
        (subst (λ (t : Stage). All (Fine (not (is_serving t))) c.sessions) e v.sessions);
  destroyed = λ on. absurd (ground (arith, v.destroyed on));
  unused = v.unused;
  no_relays = λ on past. cc past;
  no_tasks = v.no_tasks;
  owned = λ past. cc past;
  executor = λ f. cc f;
  early = λ on. cc (v.early on, e);
}
advance-Safe c closing e v =
    let h = subst (λ (t : Stage). All (Fine (not (is_serving t))) c.sessions) e v.sessions in
    if_elim Safe (any_awaited c.sessions) c
      (record c { stage = waiting_relays; engine_destroyed = c.owns_engine }) (λ some_left. v)
      (λ none_left. record {
        sessions = h;
        destroyed = λ on. (refl, none_awaited-Done c.sessions h none_left);
        unused = v.unused;
        no_relays = λ on past. cc past;
        no_tasks = v.no_tasks;
        owned = λ past. refl;
        executor = λ f. cc f;
        early = λ on. cc (v.early on, e);
      })
advance-Safe c waiting_relays e v =
    let h = subst (λ (t : Stage). All (Fine (not (is_serving t))) c.sessions) e v.sessions in
    if_elim Safe (c.relays == 0) (record c { stage = waiting_tasks }) c
      (λ none_left. record {
        sessions = h;
        destroyed = λ on. (refl, (v.destroyed on).1);
        unused = v.unused;
        no_relays = λ on past. ground arith;
        no_tasks = v.no_tasks;
        owned = λ past. v.owned (ground arith);
        executor = λ f. cc f;
        early = λ on. cc (v.early on, e);
      })
      (λ some_left. v)
advance-Safe c waiting_tasks e v =
    if_elim Safe (not c.owns_executor) (record c { stage = finished }) _
      (λ shared. finish c.executor_destroyed (ground (arith, v.early)) v.no_tasks)
      (λ own.
        if_elim Safe (c.tasks == 0) (record c { stage = finished; executor_destroyed = true }) c
          (λ none_left. finish true (ground arith) (ground arith)) (λ some_left. v))
  where
    finish :
        (b : Bool)
        → b ≡ c.owns_executor
        → (b ≡ true → c.tasks ≡ 0)
        → Safe (record c { stage = finished; executor_destroyed = b })
    finish b owner idle = record {
      sessions = subst (λ (t : Stage). All (Fine (not (is_serving t))) c.sessions) e v.sessions;
      destroyed = λ on. (refl, (v.destroyed on).1);
      unused = v.unused;
      no_relays = λ on past. v.no_relays on (ground arith);
      no_tasks = idle;
      owned = λ past. v.owned (ground arith);
      executor = λ f. owner;
      early = λ on. refl;
    }
advance-Safe c finished e v = v

xstep-Safe : (c : XClient) (e : XEvent) → Safe c → Safe (xstep c e)
unfolding xstep
xstep-Safe c (dials packet_up) v =
    let s = new_session packet_up in
    if_elim Safe (is_serving c.stage) (record c { sessions = c.sessions ++ (s ∷ []) }) c
      (λ open_. record {
        sessions =
            All-append_one (Fine (not (is_serving c.stage))) c.sessions s v.sessions
              (subst (λ (b : Bool). Fine (not b) s) (sym open_) (new_session-Fine packet_up));
        destroyed = λ on. absurd (ground (arith, v.destroyed on));
        unused = v.unused;
        no_relays = v.no_relays;
        no_tasks = v.no_tasks;
        owned = v.owned;
        executor = v.executor;
        early = v.early;
      })
      (λ shut. v)
xstep-Safe c advances v = advance-Safe c c.stage refl v
xstep-Safe c relay_begins v =
    if_elim Safe c.engine_destroyed c (record c { relays = c.relays + 1 }) (λ gone. v)
      (λ alive. record {
        sessions = v.sessions;
        destroyed = v.destroyed;
        unused = v.unused;
        no_relays = λ on past. cc (on, alive);
        no_tasks = v.no_tasks;
        owned = v.owned;
        executor = v.executor;
        early = v.early;
      })
xstep-Safe c relay_ends v = record {
  sessions = v.sessions;
  destroyed = v.destroyed;
  unused = v.unused;
  no_relays = λ on past. omega (arith, v.no_relays on past);
  no_tasks = v.no_tasks;
  owned = v.owned;
  executor = v.executor;
  early = v.early;
}
xstep-Safe c task_begins v =
    if_elim Safe (c.executor_destroyed || c.engine_destroyed) c (record c { tasks = c.tasks + 1 })
      (λ gone. v)
      (λ alive. record {
        sessions = v.sessions;
        destroyed = v.destroyed;
        unused = v.unused;
        no_relays = v.no_relays;
        no_tasks = λ on. absurd (ground arith);
        owned = v.owned;
        executor = v.executor;
        early = v.early;
      })
xstep-Safe c task_ends v = record {
  sessions = v.sessions;
  destroyed = v.destroyed;
  unused = v.unused;
  no_relays = v.no_relays;
  no_tasks = λ on. omega (arith, v.no_tasks on);
  owned = v.owned;
  executor = v.executor;
  early = v.early;
}
xstep-Safe c (fails n e) v =
    change-Safe n (set_error e) c (λ b s f. set_error-Fine b e s f) (λ s d. d) v
xstep-Safe c (ends_upload n) v =
    change-Safe n (λ s. record s { upload_ended = true }) c (λ b s f. upload_ended-Fine b s f)
      (λ s d. d) v
xstep-Safe c (goes_on n) v =
    change-Safe n (λ s. close_next s.left s) c (λ b s f. close_next-Fine b s s.left refl f)
      (λ s d. close_next-Done s s.left refl d) v
xstep-Safe c (waits_for n) v =
    change-Safe n await_session c (λ b s f. await_session-Fine b s f)
      (λ s d. await_session-Done s d) v
xstep-Safe c (uses_engine n) v =
    if_elim Safe c.engine_destroyed
      (record c { after_destroy = c.after_destroy + uses n c.sessions }) c
      (λ gone. record {
        sessions = v.sessions;
        destroyed = v.destroyed;
        unused = omega (
          arith,
          v.unused,
          uses-Done n (not (is_serving c.stage)) c.sessions v.sessions (v.destroyed gone).1,
        );
        no_relays = v.no_relays;
        no_tasks = v.no_tasks;
        owned = v.owned;
        executor = v.executor;
        early = v.early;
      })
      (λ alive. v)

xrun-Safe : (c : XClient) (es : List XEvent) → Safe c → Safe (xrun c es)
unfolding xrun
xrun-Safe c [] v = v
xrun-Safe c (e ∷ es) v = xrun-Safe (xstep c e) es (xstep-Safe c e v)

-- However dials, closes of sessions, failures, calls of the engine, relays, tasks and the client's Close
-- interleave: no session calls the engine after it was destroyed, neither by the requests of its download and
-- streaming upload nor by the goroutine of its packet upload, it is destroyed only when the Close of
-- every session ever dialled is over, each session that is closed has an error for its later reads and
-- writes, and when the client's Close is over a client with its own engine and executor has destroyed
-- both, with no relay and no task left.
pub xrun-new-Safe :
    (owns_engine owns_executor : Bool) (es : List XEvent)
    → Safe (xrun (new_client owns_engine owns_executor) es)
unfolding new_client
xrun-new-Safe owns_engine owns_executor es =
    xrun-Safe (new_client owns_engine owns_executor) es (record {
      sessions = tt;
      destroyed = λ on. cc on;
      unused = refl;
      no_relays = λ on past. refl;
      no_tasks = λ on. refl;
      owned = λ past. cc past;
      executor = λ f. cc f;
      early = λ on. cc on;
    })
