-- ===== src/Stream/Life.antt =====
-- src/stream.c: what holds of a stream in every state that its threads can reach.
use bingewatch.Prelude.{
  ℕ, Bool, true, false, ◌≡◌, ◌≢◌, ◌⊎◌, inl, inr, ◌+◌, zero, suc, refl, sym, ap, ◌∙◌, arith,
}
use bingewatch.Stream.{State, StreamStatus, Stream, Pc, callback_complete, callback_error}
use bingewatch.Stream.Step.{World, MayCallBack, Step, Reach}

-- The states that the stream may have at each point of its thread.
unfoldable agrees : Pc → State → Bool
agrees Pc.entry State.init = true
agrees (Pc.starting s) State.ready = true
agrees (Pc.starting s) State.done = true
agrees (Pc.starting s) State.state_error = true
agrees Pc.waiting State.running = true
agrees Pc.waiting State.finishing = true
agrees Pc.waiting State.done = true
agrees Pc.waiting State.state_error = true
agrees (Pc.finishing_segments s) State.finishing = true
agrees (Pc.finishing_segments s) State.done = true
agrees (Pc.finishing_segments s) State.state_error = true
agrees (Pc.joining s) State.finishing = true
agrees (Pc.joining s) State.done = true
agrees (Pc.joining s) State.state_error = true
agrees Pc.exited State.stopped = true
agrees Pc.exited State.done = true
agrees _ _ = false

callback_complete-agrees :
    (p : Pc) (st : Stream)
    → MayCallBack p
    → agrees p st.state ≡ true
    → agrees p (callback_complete st).state ≡ true
unfolding agrees callback_complete
callback_complete-agrees _ st (MayCallBack.while_starting s _) ok = ground arith
callback_complete-agrees _ st MayCallBack.while_waiting ok = ground arith
callback_complete-agrees _ st (MayCallBack.while_finishing s) ok = ground arith
callback_complete-agrees _ st (MayCallBack.while_joining s) ok = ground arith

callback_error-agrees :
    (p : Pc) (st : Stream)
    → MayCallBack p
    → agrees p st.state ≡ true
    → agrees p (callback_error st).state ≡ true
unfolding agrees callback_error
callback_error-agrees _ st (MayCallBack.while_starting s _) ok = ground arith
callback_error-agrees _ st MayCallBack.while_waiting ok = ground arith
callback_error-agrees _ st (MayCallBack.while_finishing s) ok = ground arith
callback_error-agrees _ st (MayCallBack.while_joining s) ok = ground arith

-- Where a call-back writes what it has made of an earlier state.
late_done-agrees : (p : Pc) → MayCallBack p → agrees p State.done ≡ true
unfolding agrees
late_done-agrees _ (MayCallBack.while_starting s _) = refl
late_done-agrees _ MayCallBack.while_waiting = refl
late_done-agrees _ (MayCallBack.while_finishing s) = refl
late_done-agrees _ (MayCallBack.while_joining s) = refl

late_error-agrees : (p : Pc) → MayCallBack p → agrees p State.state_error ≡ true
unfolding agrees
late_error-agrees _ (MayCallBack.while_starting s _) = refl
late_error-agrees _ MayCallBack.while_waiting = refl
late_error-agrees _ (MayCallBack.while_finishing s) = refl
late_error-agrees _ (MayCallBack.while_joining s) = refl

late_finishing-agrees :
    (p : Pc) → MayCallBack p → ((s : ℕ) → p ≢ Pc.starting s) → agrees p State.finishing ≡ true
unfolding agrees
late_finishing-agrees _ (MayCallBack.while_starting s _) run = absurd (run s refl)
late_finishing-agrees _ MayCallBack.while_waiting run = refl
late_finishing-agrees _ (MayCallBack.while_finishing s) run = refl
late_finishing-agrees _ (MayCallBack.while_joining s) run = refl

-- A call of `stop_stream_internal` that is to write has seen the stream RUNNING or FINISHING.
unfoldable has_run : Pc → Bool
has_run Pc.entry = false
has_run (Pc.starting s) = false
has_run _ = true

running-has_run :
    (p : Pc) (s : State)
    → agrees p s ≡ true
    → (s ≡ State.running) ⊎ (s ≡ State.finishing)
    → has_run p ≡ true
unfolding agrees has_run
running-has_run p s ok (inl e) = ground (arith, ok, e)
running-has_run p s ok (inr e) = ground (arith, ok, e)

done-agrees : (p : Pc) → has_run p ≡ true → agrees p State.done ≡ true
unfolding agrees has_run
done-agrees p h = ground (arith, h)

-- The state at a point of the thread that is known.
agrees_at : {p q : Pc} (s : State) → p ≡ q → agrees p s ≡ true → agrees q s ≡ true
agrees_at s e ok = ap (λ p. agrees p s) (sym e) ∙ ok

-- What holds in every world.
record Agrees (w : World) : Type 0 where
  state : agrees w.pc w.stream.state ≡ true
  stops : (w.stopping ≡ 0) ⊎ (has_run w.pc ≡ true)

-- A step of the thread to a point where it has run.
moved :
    (w u : World)
    → u.stopping ≡ w.stopping
    → (has_run w.pc ≡ true → has_run u.pc ≡ true)
    → agrees u.pc u.stream.state ≡ true
    → Agrees w
    → Agrees u
moved w u same run ok a = record {
  state = ok;
  stops = elim a.stops [ inl e ↦ inl (same ∙ e) | inr h ↦ inr (run h) ];
}

Step-Agrees : (w u : World) → Step w u → Agrees w → Agrees u
unfolding agrees has_run
Step-Agrees _ _ (Step.begin w e) a = moved w _ refl (λ h. ap has_run (sym e) ∙ h) refl a
Step-Agrees _ _ (Step.start_segment w s e _) a =
    moved w _ refl (λ h. ap has_run (sym e) ∙ h) (agrees_at w.stream.state e a.state) a
Step-Agrees _ _ (Step.run w s e _) a = moved w _ refl (λ _. refl) refl a
Step-Agrees _ _ (Step.leave_finishing w e f) a = moved w _ refl (λ _. refl) (rw f) a
Step-Agrees _ _ (Step.leave w e f g) a =
    let at : agrees Pc.waiting w.stream.state ≡ true = agrees_at w.stream.state e a.state in
    moved w _ refl (λ _. refl) (ground (arith, at, f, g)) a
Step-Agrees _ _ (Step.segment_over w s e _ _) a =
    moved w _ refl (λ _. refl) (agrees_at w.stream.state e a.state) a
Step-Agrees _ _ (Step.all_over w s e _) a =
    let at : agrees (Pc.finishing_segments s) w.stream.state ≡ true =
      agrees_at w.stream.state e a.state in
    moved w _ refl (λ _. refl) (ground (arith, at)) a
Step-Agrees _ _ (Step.join w s e _ _) a =
    moved w _ refl (λ _. refl) (agrees_at w.stream.state e a.state) a
Step-Agrees _ _ (Step.exit w s e _) a = moved w _ refl (λ _. refl) refl a
Step-Agrees _ _ (Step.complete w may) a =
    moved w _ refl (λ h. h) (callback_complete-agrees w.pc w.stream may a.state) a
Step-Agrees _ _ (Step.fail w may) a =
    moved w _ refl (λ h. h) (callback_error-agrees w.pc w.stream may a.state) a
Step-Agrees _ _ (Step.late_done w may) a = moved w _ refl (λ h. h) (late_done-agrees w.pc may) a
Step-Agrees _ _ (Step.late_finishing w may run) a =
    moved w _ refl (λ h. h) (late_finishing-agrees w.pc may run) a
Step-Agrees _ _ (Step.late_error w may) a = moved w _ refl (λ h. h) (late_error-agrees w.pc may) a
Step-Agrees _ _ (Step.end_segment w _ _) a = record { state = a.state; stops = a.stops }
Step-Agrees _ _ (Step.stop_read w seen) a = record {
  state = a.state;
  stops = inr (running-has_run w.pc w.stream.state a.state seen);
}
Step-Agrees _ _ (Step.stop_write w n e) a =
    let run : has_run w.pc ≡ true = elim a.stops [
      | inl z ↦ absurd (omega (arith, z, e))
      | inr h ↦ h
    ] in
    record { state = done-agrees w.pc run; stops = inr run }
Step-Agrees _ _ (Step.stop_read_error w _) a = record { state = a.state; stops = a.stops }
Step-Agrees _ _ (Step.stop_write_error w n _) a = record { state = a.state; stops = a.stops }

Reach-Agrees : (w u : World) → Agrees w → Reach w u → Agrees u
Reach-Agrees w _ a Reach.here = a
Reach-Agrees w u a (Reach.next {t = t} r s) = Step-Agrees t u s (Reach-Agrees w t a r)

exited_states :
    (p : Pc) (s : State)
    → agrees p s ≡ true
    → (s ≡ State.stopped → p ≡ Pc.exited) × (p ≡ Pc.exited → (s ≡ State.stopped) ⊎ (s ≡ State.done))
unfolding agrees
exited_states p s ok = (λ e. ground (arith, ok, e), λ e. ground (arith, ok, e))

-- From a stream that has not been started, with no call of `stop_stream` under way, in every world
-- that its threads, its segments' callbacks and callers of `stop_stream` can reach, a stream that
-- is STOPPED has been left by its thread, and one that its thread has left is STOPPED or DONE.
pub Reach-stopped :
    (w u : World)
    → w.pc ≡ Pc.entry
    → w.stream.state ≡ State.init
    → w.stopping ≡ 0
    → Reach w u
    → (u.stream.state ≡ State.stopped → u.pc ≡ Pc.exited)
      × (u.pc ≡ Pc.exited → (u.stream.state ≡ State.stopped) ⊎ (u.stream.state ≡ State.done))
unfolding agrees
Reach-stopped w u e f z r =
    exited_states u.pc u.stream.state
      (Reach-Agrees w u (record { state = rw (e, f); stops = inl z }) r).state

Reach-cons : {w v u : World} → Step w v → Reach v u → Reach w u
Reach-cons s Reach.here = Reach.next Reach.here s
Reach-cons s (Reach.next r t) = Reach.next (Reach-cons s r) t

-- The status of a stream, once it is not STREAM_SUCCESS.
Step-status :
    (w u : World)
    → Step w u
    → w.stream.status ≢ StreamStatus.success
    → u.stream.status ≢ StreamStatus.success
unfolding callback_complete callback_error
Step-status _ _ (Step.begin w e) bad = bad
Step-status _ _ (Step.start_segment w s e _) bad = bad
Step-status _ _ (Step.run w s e _) bad = bad
Step-status _ _ (Step.leave_finishing w e f) bad = bad
Step-status _ _ (Step.leave w e f g) bad = bad
Step-status _ _ (Step.segment_over w s e _ _) bad = bad
Step-status _ _ (Step.all_over w s e _) bad = bad
Step-status _ _ (Step.join w s e _ _) bad = bad
Step-status _ _ (Step.exit w s e _) bad = bad
Step-status _ _ (Step.complete w may) bad = ground arith
Step-status _ _ (Step.fail w may) bad = ground arith
Step-status _ _ (Step.late_done w may) bad = bad
Step-status _ _ (Step.late_finishing w may _) bad = bad
Step-status _ _ (Step.late_error w may) bad = ground arith
Step-status _ _ (Step.end_segment w _ _) bad = bad
Step-status _ _ (Step.stop_read w _) bad = bad
Step-status _ _ (Step.stop_write w n _) bad = bad
Step-status _ _ (Step.stop_read_error w _) bad = bad
Step-status _ _ (Step.stop_write_error w n _) bad = ground arith

-- A stream whose status is not STREAM_SUCCESS never gets that status back, whatever its thread,
-- its segments and callers of `stop_stream` do.
pub Reach-status :
    (w u : World)
    → Reach w u
    → w.stream.status ≢ StreamStatus.success
    → u.stream.status ≢ StreamStatus.success
Reach-status w _ Reach.here bad = bad
Reach-status w u (Reach.next {t = t} r s) bad = Step-status t u s (Reach-status w t r bad)

-- Joining the segments that are left.
join_all :
    (n : ℕ) (w : World) (s : ℕ)
    → w.pc ≡ Pc.joining s
    → s + n ≡ w.stream.n_segment
    → ((k : ℕ) → w.ended k ≢ 0)
    → (u : World) × Reach w u
      × (u.pc ≡ Pc.exited)
      × (u.stream.state ≡ State.stopped)
      × (u.stream.status ≡ w.stream.status)
join_all zero w s e len over =
    (_, Reach.next Reach.here (Step.exit w s e (omega (arith, len))), refl, refl, refl)
join_all (suc n) w s e len over =
    let next : World = record w { pc = Pc.joining (s + 1) } in
    let (u, r, pc, st, status) = join_all n next (s + 1) refl (omega (arith, len)) over in
    (u, Reach-cons (Step.join w s e (omega (arith, len)) (over s)) r, pc, st, status)

-- A thread that waits and sees a state other than RUNNING and FINISHING (a segment reported an
-- error, or `stop_stream` was called) can go on by itself, once the threads of the segments have
-- ended, to join every segment and leave, with the stream STOPPED and its status as it was.
pub waiting-exited :
    (w : World)
    → w.pc ≡ Pc.waiting
    → w.stream.state ≢ State.running
    → w.stream.state ≢ State.finishing
    → ((k : ℕ) → w.ended k ≢ 0)
    → (u : World) × Reach w u
      × (u.pc ≡ Pc.exited)
      × (u.stream.state ≡ State.stopped)
      × (u.stream.status ≡ w.stream.status)
waiting-exited w e f g over =
    let next : World = record w { pc = Pc.joining 0 } in
    let (u, r, pc, st, status) = join_all w.stream.n_segment next 0 refl (omega arith) over in
    (u, Reach-cons (Step.leave w e f g) r, pc, st, status)

callback_error_running :
    (st : Stream)
    → st.state ≡ State.running
    → ((callback_error st).state ≡ State.state_error)
      × ((callback_error st).status ≡ StreamStatus.error)
unfolding callback_error
callback_error_running st e = ground arith

-- When a segment has reported an error to a stream whose thread waits in state RUNNING, and the
-- threads of the segments have then ended, there are steps by which the thread joins every segment
-- and leaves, with the stream STOPPED and its status STREAM_ERROR; and by whatever steps, the
-- status does not become STREAM_SUCCESS again.
pub fail-exited :
    (w : World) (ended : ℕ → ℕ)
    → w.pc ≡ Pc.waiting
    → w.stream.state ≡ State.running
    → ((k : ℕ) → ended k ≢ 0)
    → (u : World) × Reach (record w { stream = callback_error w.stream; ended = ended }) u
      × (u.pc ≡ Pc.exited)
      × (u.stream.state ≡ State.stopped)
      × (u.stream.status ≡ StreamStatus.error)
      × ((v : World)
          → Reach (record w { stream = callback_error w.stream; ended = ended }) v
          → v.stream.status ≢ StreamStatus.success)
fail-exited w ended e run over =
    let failed : World = record w { stream = callback_error w.stream; ended = ended } in
    let (state, bad) = callback_error_running w.stream run in
    let (u, r, pc, st, status) =
      waiting-exited failed e (ground (arith, state)) (ground (arith, state)) over in
    (u, r, pc, st, status ∙ bad, λ v s. Reach-status failed v s (ground (arith, bad)))
