-- ===== src/Boot/Chain/Quiet.antt =====
-- A runner whose service was never found healthy, through what its goroutines do.
use tailscale_os.Base.{
  ℕ, ◌≡◌, refl, ap, ◌∙◌, Bool, true, false, not, ◌&&◌, Option, none, some, List, [], ◌∷◌, ◌++◌,
  String, All, All-append, if◌then◌else◌, arith, ltb, ◌==◌, length,
}
use tailscale_os.Chan.{Chan, Store, try_send, send_all, receive, update}
use tailscale_os.Health as H
use tailscale_os.Health.{
  Status, zero_status, StateChange, HealthState, is_healthy, as_proto, update_health, next_status,
  record_round,
}
use tailscale_os.History.{ServiceState, ServiceEvent, ServiceStateEvent, event_as_proto, running}
use tailscale_os.Runner.{
  World, health_update, update_state, state_event, record_state, health_event, is_running,
  record_health, push_health, publish_event, notify_if, notify_event,
}
use tailscale_os.Runner.Update.{update_state_frame, health_update_frame}
use tailscale_os.Runner.Lifecycle.{sink, judge}
use tailscale_os.Boot.Chain.{with_state, judged, taken}

abbrev pub Unwell : StateChange → Type 0
Unwell c = is_healthy c.new ≡ false

abbrev pub Unsaid : ServiceStateEvent → Type 0
Unsaid e = e.health.healthy ≡ false

-- Neither the health state nor a change on its way nor an event says that the service is healthy.
pub record Quiet (w : World) : Type 0 where
  pub verdict : is_healthy w.runner.health_state.status ≡ false
  pub changes : (ch : ℕ) → All Unwell (w.health_chans ch).buffer
  pub events : All Unsaid w.published

All-try_send :
    (v : StateChange) (c : Chan StateChange)
    → Unwell v
    → All Unwell c.buffer
    → All Unwell (try_send v c).buffer
unfolding try_send
All-try_send v c u h = by_room (ltb (length c.buffer) c.cap)
  where
    by_room :
        (b : Bool) → All Unwell (if b then record c { buffer = c.buffer ++ (v ∷ []) } else c).buffer
    by_room true = All-append Unwell c.buffer (v ∷ []) h (u, tt)
    by_room false = h

All-update :
    (st : Store StateChange) (i : ℕ) (c : Chan StateChange)
    → All Unwell c.buffer
    → ((ch : ℕ) → All Unwell (st ch).buffer)
    → (ch : ℕ) → All Unwell (update st i c ch).buffer
All-update st i c h all ch = by_place (i == ch)
  where
    by_place : (b : Bool) → All Unwell (if b then c else st ch).buffer
    by_place true = h
    by_place false = all ch

All-send_all :
    (v : StateChange) (chs : List ℕ) (st : Store StateChange)
    → Unwell v
    → ((ch : ℕ) → All Unwell (st ch).buffer)
    → (ch : ℕ) → All Unwell (send_all v chs st ch).buffer
unfolding send_all
All-send_all v [] st u h ch = h ch
All-send_all v (c ∷ chs) st u h ch =
    All-send_all v chs (update st c (try_send v (st c))) u
      (All-update st c (try_send v (st c)) (All-try_send v (st c) u (h c)) h) ch

unhealthy_next :
    (now : ℕ) (m : String) (s : Status) → is_healthy (next_status now false m s) ≡ false
unfolding is_healthy next_status H.changes
unhealthy_next now m s = after s.healthy
  where
    after :
        (o : Option Bool) → is_healthy (next_status now false m (record s { healthy = o })) ≡ false
    after none = refl
    after (some true) = refl
    after (some false) = refl

-- A verdict that is not good.
pub judge-Quiet : (now : ℕ) (m : String) (w : World) → Quiet w → Quiet (judge now false m w)
unfolding update_health
judge-Quiet now m w q = record {
  verdict = unhealthy_next now m w.runner.health_state.status;
  changes = λ ch. sent (H.changes w.runner.health_state.status.healthy false) ch;
  events = q.events;
}
  where
    change : StateChange
    change = record {
      old = w.runner.health_state.status;
      new = next_status now false m w.runner.health_state.status;
    }

    sent :
        (b : Bool) (ch : ℕ)
        → All Unwell
            ((if b
                then send_all change w.runner.health_state.subscribers w.health_chans
                else w.health_chans)
              ch).buffer
    sent true ch =
        All-send_all change w.runner.health_state.subscribers w.health_chans
          (unhealthy_next now m w.runner.health_state.status) q.changes ch
    sent false ch = q.changes ch

pub judged-Quiet : (now : ℕ) (m : String) (w : World) → Quiet w → Quiet (judged now (some m) w)
unfolding record_round
judged-Quiet now m w q = judge-Quiet now m w q

-- One more event, or none.
publishes :
    (b : Bool) (id : String) (e : ServiceEvent) (ps : List ServiceStateEvent)
    → is_healthy e.health ≡ false
    → All Unsaid ps
    → All Unsaid (if b then ps ++ (event_as_proto id e ∷ []) else ps)
unfolding event_as_proto as_proto
publishes true id e ps u h = All-append Unsaid ps (event_as_proto id e ∷ []) h (u, tt)
publishes false id e ps u h = h

unhealthy_state :
    (now : ℕ) (s : ServiceState) (m : String) (w : World)
    → Quiet w
    → is_healthy (state_event now s m w.runner).health ≡ false
unfolding state_event is_healthy
unhealthy_state now running m w q = q.verdict
unhealthy_state now s m w q = refl

pub update_state-Quiet :
    (now : ℕ) (s : ServiceState) (m : String) (w : World) → Quiet w → Quiet (update_state now s m w)
unfolding record_state
update_state-Quiet now s m w q =
    let f = update_state_frame now s m w in
    record {
      verdict = ap (λ r. is_healthy r.health_state.status) f.0 ∙ q.verdict;
      changes = λ ch. rw f.1 (q.changes ch);
      events = rw f.2 (
          publishes w.runner.has_runtime w.runner.id (state_event now s m w.runner) w.published
            (unhealthy_state now s m w q) q.events);
    }

pub sink-Quiet :
    (now : ℕ) (s : ServiceState) (m : String) (w : World) → Quiet w → Quiet (sink now s m w)
unfolding sink
sink-Quiet now s m w q =
    by_state (w.runner.is_healthchecked && not (is_running s)) (update_state now s m w)
      (update_state-Quiet now s m w q)
  where
    by_state :
        (b : Bool) (v : World)
        → Quiet v
        → Quiet (if b then judge now false "service not running" v else v)
    by_state true v k = judge-Quiet now "service not running" v k
    by_state false v k = k

same_health_chans :
    (now : ℕ) (c : StateChange) (w : World) → (health_update now c w).health_chans ≡ w.health_chans
unfolding health_update publish_event notify_if notify_event
same_health_chans now c w = ground arith

pub health_update-Quiet :
    (now : ℕ) (c : StateChange) (w : World) → Unwell c → Quiet w → Quiet (health_update now c w)
unfolding record_health health_event
health_update-Quiet now c w u q =
    let f = health_update_frame now c w in
    record {
      verdict =
          ap (λ r. is_healthy r.health_state.status) f.0 ∙ same_verdict (is_running w.runner.state);
      changes = λ ch. rw (same_health_chans now c w) (q.changes ch);
      events = rw f.1 (
          publishes (is_running w.runner.state && w.runner.has_runtime) w.runner.id
            (health_event now c w.runner) w.published u q.events);
    }
  where
    same_verdict :
        (b : Bool)
        → is_healthy (if b then push_health now c w else w).runner.health_state.status ≡ false
    same_verdict true = q.verdict
    same_verdict false = q.verdict

pub taken-Quiet :
    (now ch : ℕ) (w : World) → Quiet w → Quiet (taken now (receive ch w.health_chans) w)
unfolding receive
taken-Quiet now ch w q = by_buffer ((w.health_chans ch).buffer) (q.changes ch)
  where
    by_buffer :
        (cs : List StateChange)
        → All Unwell cs
        → Quiet (
            taken now
              (elim cs [
                | [] ↦ none
                | v ∷ rest ↦
                    some
                      (v, update w.health_chans ch (record (w.health_chans ch) { buffer = rest }))
              ])
              w)
    by_buffer [] h = q
    by_buffer (v ∷ rest) h =
        health_update-Quiet now v
          (record w {
            health_chans = update w.health_chans ch (record (w.health_chans ch) { buffer = rest });
          })
          h.0
          (record {
            verdict = q.verdict;
            changes =
                All-update w.health_chans ch (record (w.health_chans ch) { buffer = rest }) h.1
                  q.changes;
            events = q.events;
          })

-- A change of the health state that leaves its status or forgets it.
pub with_state-Quiet :
    (h : HealthState) (w : World) → is_healthy h.status ≡ false → Quiet w → Quiet (with_state h w)
with_state-Quiet h w e q = record { verdict = e; changes = q.changes; events = q.events }
