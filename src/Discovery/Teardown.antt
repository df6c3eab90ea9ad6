-- ===== src/Discovery/Teardown.antt =====
-- What the end of the graph gives back of what its start made.
use rmw_connextdds.Prelude.{
  ◌≡◌, ◌≢◌, refl, sym, ◌∙◌, ap, inl, inr, Bool, true, false, not, Bool-cases,
}
use mathlib.Core.Path.{subst}
use rmw_connextdds.Ret.{Ret, is_ok, ◌then_ok◌}
use rmw_connextdds.Discovery.Ending.{discovery_thread_stop-start}
use rmw_connextdds.Discovery.Thread.{Listener, discovery_thread_start, discovery_thread_stop}
use rmw_connextdds.Discovery.Setup.{
  Setup, SetupCalls, or_return, get_reader, initialize_steps, graph_initialize, graph_enable,
  enable_builtin_readers, graph_finalize,
}
use rmw_connextdds.Discovery.Down.{Destroys, IsDown, down, graph_finalize-down}

-- No thread has been started, and there is no condition for one.
abbrev pub idle : Listener
idle = record { listener_thread_gc = false; thread_is_running = false; listener_thread = false }

-- After a step `graph_initialized` is `b`, and no thread has been started.
record Marks (b : Bool) (r : Ret × Setup) : Type 0 where
  mark : r.1.graph_initialized ≡ b
  listener : r.1.listener ≡ idle

module _ (b : Bool) where
  then-Marks :
      (r : Ret × Setup) (f : Setup → Ret × Setup)
      → Marks b r
      → ((s : Setup) → s.graph_initialized ≡ b → s.listener ≡ idle → Marks b (f s))
      → Marks b (r then_ok f)
  then-Marks r f m k = elim (Bool-cases (is_ok r.0)) [
    | inl e ↦ rw e (k r.1 m.mark m.listener)
    | inr e ↦ rw e m
  ]

  or_return-Marks :
      (rc : Ret) (c : Bool) (change : Setup → Setup) (s : Setup)
      → (change s).graph_initialized ≡ s.graph_initialized
      → (change s).listener ≡ s.listener
      → s.graph_initialized ≡ b
      → s.listener ≡ idle
      → Marks b (or_return rc c change s)
  or_return-Marks rc true change s k h e l = record { mark = k ∙ e; listener = h ∙ l }
  or_return-Marks rc false change s k h e l = record { mark = e; listener = l }

  enable_builtin_readers-Marks :
      (T : SetupCalls) (s : Setup)
      → s.graph_initialized ≡ b
      → s.listener ≡ idle
      → Marks b (enable_builtin_readers T s)
  unfolding enable_builtin_readers
  enable_builtin_readers-Marks T s e l =
      then-Marks _ _
        (then-Marks _ _ (or_return-Marks Ret.error T.builtin_subscriber (λ u. u) s refl refl e l)
          (λ u. or_return-Marks Ret.error T.enable_builtin_subscriber (λ v. v) u refl refl))
        (λ u. or_return-Marks Ret.error T.enable_builtin_readers (λ v. v) u refl refl)

then_good : (r : Ret × Setup) (f : Setup → Ret × Setup) → is_ok r.0 ≡ true → r then_ok f ≡ f r.1
then_good r f e = rw e refl

then_bad : (r : Ret × Setup) (f : Setup → Ret × Setup) → is_ok r.0 ≡ false → r then_ok f ≡ r
then_bad r f e = rw e refl

-- The stop of the thread leaves neither the thread nor its condition.
abbrev Stops : SetupCalls → Setup → Type 0
Stops T s = (discovery_thread_stop T.stop s.listener).1 ≡ idle

module _ (E T : SetupCalls) (D : Destroys T) (c : E.start.destroy_guard_condition ≡ Ret.ok) where
  idle-Stops : (s : Setup) → s.listener ≡ idle → Stops T s
  unfolding discovery_thread_stop
  idle-Stops s l = ap (λ i. (discovery_thread_stop T.stop i).1) l

  started-Stops :
      (s : Setup)
      → s.listener ≡ idle
      → (discovery_thread_stop T.stop (discovery_thread_start E.start s.listener).1).1 ≡ idle
  started-Stops s l =
      ap (λ i. (discovery_thread_stop T.stop (discovery_thread_start E.start i).1).1) l
      ∙ ap (λ r. r.1)
          (discovery_thread_stop-start E.start T.stop idle refl refl D.trigger D.join D.condition c)

  -- An initialized graph, enabled or not, whose thread can be stopped.
  record Stoppable (r : Ret × Setup) : Type 0 where
    initialized : r.1.graph_initialized ≡ true
    stops : Stops T r.1

  graph_enable-Stoppable :
      (s : Setup) → s.graph_initialized ≡ true → s.listener ≡ idle → Stoppable (graph_enable E s)
  unfolding graph_enable
  graph_enable-Stoppable s e l =
      let r : Ret × Setup =
        or_return Ret.error E.enable_pub (λ t. t) s
        then_ok or_return Ret.error E.enable_sub (λ t. t)
        then_ok enable_builtin_readers E in
      let m : Marks true r =
        then-Marks true _ _
          (then-Marks true _ _
            (or_return-Marks true Ret.error E.enable_pub (λ t. t) s refl refl e l)
            (λ t. or_return-Marks true Ret.error E.enable_sub (λ u. u) t refl refl))
          (enable_builtin_readers-Marks true E) in
      let last : Setup → Ret × Setup = λ t.
        let (rc, i) = discovery_thread_start E.start t.listener in
        (rc, record t { listener = i }) in
      elim (Bool-cases (is_ok r.0)) [
        | inl x ↦
            subst Stoppable (sym (then_good r last x))
              (record { initialized = m.mark; stops = started-Stops r.1 m.listener })
        | inr x ↦
            subst Stoppable (sym (then_bad r last x))
              (record { initialized = m.mark; stops = idle-Stops r.1 m.listener })
      ]

initialize_steps-Marks :
    (T : SetupCalls) (s : Setup)
    → s.graph_initialized ≡ false
    → s.listener ≡ idle
    → Marks false (initialize_steps T s)
unfolding initialize_steps
initialize_steps-Marks T s e l =
    let reader : (c : Bool) (change : Setup → Setup) (t : Setup)
        → (change t).graph_initialized ≡ t.graph_initialized
        → (change t).listener ≡ t.listener
        → t.graph_initialized ≡ false
        → t.listener ≡ idle
        → Marks false (get_reader T c change t) =
      λ c change t k h m i. elim (Bool-cases T.builtin_subscriber) [
        | inl x ↦ rw x (or_return-Marks false Ret.error c change t k h m i)
        | inr x ↦ rw x (record { mark = m; listener = i })
      ] in
    then-Marks false _ _
      (then-Marks false _ _
        (then-Marks false _ _
          (then-Marks false _ _
            (then-Marks false _ _
              (then-Marks false _ _
                (or_return-Marks false Ret.error (not s.graph_initialized) (λ t. t) s refl refl e l)
                (λ t.
                  or_return-Marks false Ret.error T.create_publisher
                    (λ u. record u { publisher = true }) (record t { publisher = false }) refl
                    refl))
              (λ t.
                or_return-Marks false Ret.error T.create_subscriber
                  (λ u. record u { subscriber = true }) (record t { subscriber = false }) refl
                  refl))
            (λ t.
              or_return-Marks false Ret.bad_alloc T.create_guard_condition
                (λ u. record u { graph_guard_condition = true; on_change_callback = true })
                (record t { graph_guard_condition = false }) refl refl))
          (λ t.
            reader T.lookup_participants (λ u. record u { dr_participants = true }) t refl refl))
        (λ t. reader T.lookup_publications (λ u. record u { dr_publications = true }) t refl refl))
      (λ t. reader T.lookup_subscriptions (λ u. record u { dr_subscriptions = true }) t refl refl)

module _ (E T : SetupCalls) (D : Destroys T) (c : E.start.destroy_guard_condition ≡ Ret.ok) where
  -- What graph_finalize does after graph_initialize has ended with `r`.
  record Ends (r : Ret × Setup) : Type 0 where
    good :
        r.0 ≡ Ret.ok
        → ((graph_finalize T (graph_enable E r.1).1).0 ≡ Ret.ok)
          × IsDown (graph_finalize T (graph_enable E r.1).1).1
    bad : r.0 ≢ Ret.ok → graph_finalize T r.1 ≡ (Ret.ok, r.1)

  down-IsDown : (s : Setup) → Stops T s → IsDown (down T s)
  down-IsDown s h = record {
    graph_initialized = refl;
    publisher = refl;
    subscriber = refl;
    graph_guard_condition = refl;
    on_change_callback = refl;
    thread_is_running = ap (λ l. l.thread_is_running) h;
    listener_thread = ap (λ l. l.listener_thread) h;
    listener_thread_gc = ap (λ l. l.listener_thread_gc) h;
  }

  finalize-IsDown :
      (s : Setup)
      → s.graph_initialized ≡ true
      → Stops T s
      → ((graph_finalize T s).0 ≡ Ret.ok) × IsDown (graph_finalize T s).1
  finalize-IsDown s i h =
      subst (λ r. (r.0 ≡ Ret.ok) × IsDown r.1) (sym (graph_finalize-down T s D i))
        (refl, down-IsDown s h)

  Ends-good : (u : Setup) → u.graph_initialized ≡ true → u.listener ≡ idle → Ends (Ret.ok, u)
  Ends-good u i l =
      let S = graph_enable-Stoppable E T D c u i l in
      record {
        good = λ _. finalize-IsDown (graph_enable E u).1 S.initialized S.stops;
        bad = λ k. absurd (k refl);
      }

  not_initialized : (u : Setup) → u.graph_initialized ≡ false → graph_finalize T u ≡ (Ret.ok, u)
  unfolding graph_finalize
  not_initialized u m = simp (graph_finalize, m) refl

  not_ok : (rc : Ret) → rc ≡ Ret.ok → is_ok rc ≡ false → ⊥
  not_ok rc e f = cc

  Ends-bad : (r : Ret × Setup) → is_ok r.0 ≡ false → r.1.graph_initialized ≡ false → Ends r
  Ends-bad r x m = record { good = λ k. absurd (not_ok r.0 k x); bad = λ _. not_initialized r.1 m }

  initialize-Ends :
      (I : SetupCalls) (s : Setup)
      → s.graph_initialized ≡ false
      → s.listener ≡ idle
      → Ends (graph_initialize I s)
  unfolding graph_initialize
  initialize-Ends I s n l =
      let r = initialize_steps I s in
      let m = initialize_steps-Marks I s n l in
      let last : Setup → Ret × Setup = λ t. (Ret.ok, record t { graph_initialized = true }) in
      elim (Bool-cases (is_ok r.0)) [
        | inl x ↦
            subst Ends (sym (then_good r last x))
              (Ends-good (record r.1 { graph_initialized = true }) refl m.listener)
        | inr x ↦ subst Ends (sym (then_bad r last x)) (Ends-bad r x m.mark)
      ]

-- Where no thread had been started before and the releases succeed (also that of the thread's
-- condition, when its start fails): a graph that was initialized, and whether or not it then was
-- enabled, is taken down by graph_finalize, with a good result; the thread is stopped and its condition
-- destroyed, and no publisher, subscriber, guard condition or callback is left. Where graph_initialize
-- fails, though, graph_finalize does nothing, and whatever was created stays.
pub graph_finalize-graph_initialize :
    (I E T : SetupCalls) (s : Setup)
    → s.graph_initialized ≡ false
    → s.listener ≡ idle
    → Destroys T
    → E.start.destroy_guard_condition ≡ Ret.ok
    → ((graph_initialize I s).0 ≡ Ret.ok
        → ((graph_finalize T (graph_enable E (graph_initialize I s).1).1).0 ≡ Ret.ok)
          × IsDown (graph_finalize T (graph_enable E (graph_initialize I s).1).1).1)
      × ((graph_initialize I s).0 ≢ Ret.ok
          → graph_finalize T (graph_initialize I s).1 ≡ (Ret.ok, (graph_initialize I s).1))
graph_finalize-graph_initialize I E T s n l D c =
    let X = initialize-Ends E T D c I s n l in (X.good, X.bad)
