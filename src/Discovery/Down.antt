-- ===== src/Discovery/Down.antt =====
-- What graph_finalize leaves of a graph that is initialized.
use rmw_connextdds.Prelude.{◌≡◌, refl, ◌∙◌, ap, inl, inr, Bool, true, false, Bool-cases}
use rmw_connextdds.Ret.{Ret, ◌then_ok◌}
use rmw_connextdds.Discovery.Thread.{Listener, discovery_thread_stop}
use rmw_connextdds.Discovery.Setup.{
  Setup, SetupCalls, destroy, stop_thread, finalize_all, graph_finalize,
}

-- What is released is released well, and the thread can be woken and joined.
pub record Destroys (T : SetupCalls) : Type 0 where
  pub trigger : T.stop.trigger_guard_condition ≡ Ret.ok
  pub join : T.stop.join ≡ true
  pub condition : T.stop.destroy_guard_condition ≡ Ret.ok
  pub guard : T.destroy_guard_condition ≡ true
  pub subscriber : T.destroy_subscriber ≡ true
  pub publisher : T.destroy_publisher ≡ true

-- The graph is not initialized, its thread is stopped, and what both had created is gone.
pub record IsDown (s : Setup) : Type 0 where
  pub graph_initialized : s.graph_initialized ≡ false
  pub publisher : s.publisher ≡ false
  pub subscriber : s.subscriber ≡ false
  pub graph_guard_condition : s.graph_guard_condition ≡ false
  pub on_change_callback : s.on_change_callback ≡ false
  pub thread_is_running : s.listener.thread_is_running ≡ false
  pub listener_thread : s.listener.listener_thread ≡ false
  pub listener_thread_gc : s.listener.listener_thread_gc ≡ false

stop-good :
    (T : SetupCalls) (D : Destroys T) (l : Listener)
    → ((discovery_thread_stop T.stop l).0 ≡ Ret.ok)
      × ((discovery_thread_stop T.stop l).1.thread_is_running ≡ false)
unfolding discovery_thread_stop
stop-good T D l = elim (Bool-cases l.thread_is_running) [
  | inr r ↦ simp (discovery_thread_stop, r) (refl, refl)
  | inl r ↦ simp (discovery_thread_stop, r, D.trigger, D.join, D.condition) (refl, refl)
]

destroy_lem :
    (b d : Bool) (reset : Setup → Setup) (s : Setup)
    → d ≡ true
    → (b ≡ false → s ≡ reset s)
    → destroy b d reset s ≡ (Ret.ok, reset s)
destroy_lem true d reset s e h = rw e refl
destroy_lem false d reset s e h = ap (λ t. (Ret.ok, t)) (h refl)

stop_thread-good :
    (T : SetupCalls) (D : Destroys T) (s : Setup)
    → stop_thread T s
      ≡ (Ret.ok, record s { listener = (discovery_thread_stop T.stop s.listener).1 })
unfolding stop_thread
stop_thread-good T D s = simp (stop_thread, (stop-good T D s.listener).0) refl

-- What the end of an initialized graph comes to, where all releases succeed.
abbrev pub down : SetupCalls → Setup → Setup
down T s = record s {
  graph_initialized = false;
  publisher = false;
  subscriber = false;
  graph_guard_condition = false;
  on_change_callback = false;
  listener = (discovery_thread_stop T.stop s.listener).1;
}

finalize_all-down :
    (T : SetupCalls) (s : Setup) → Destroys T → finalize_all T s ≡ (Ret.ok, down T s)
unfolding finalize_all
finalize_all-down T s D =
    let s1 : Setup = record s {
      listener = (discovery_thread_stop T.stop s.listener).1;
      on_change_callback = false;
    } in
    let s2 : Setup = record s1 { graph_guard_condition = false } in
    let s3 : Setup = record s2 { subscriber = false } in
    let s4 : Setup = record s3 { publisher = false } in
    let last : Ret × Setup → Ret × Setup =
      λ r. r then_ok (λ t. (Ret.ok, record t { graph_initialized = false })) in
    let after_sub : Ret × Setup → Ret × Setup = λ r. last (
      r then_ok (λ t.
        destroy t.publisher T.destroy_publisher (λ u. record u { publisher = false }) t)) in
    let after_guard : Ret × Setup → Ret × Setup = λ r. after_sub (
      r then_ok (λ t.
        destroy t.subscriber T.destroy_subscriber (λ u. record u { subscriber = false }) t)) in
    let after_stop : Ret × Setup → Ret × Setup = λ r. after_guard (
      r then_ok (λ t. (Ret.ok, record t { on_change_callback = false })) then_ok (λ t.
        destroy t.graph_guard_condition T.destroy_guard_condition
          (λ u. record u { graph_guard_condition = false }) t)) in
    ap after_stop (stop_thread-good T D s)
    ∙ (ap after_guard (
          destroy_lem s1.graph_guard_condition T.destroy_guard_condition
            (λ u. record u { graph_guard_condition = false }) s1 D.guard
            (λ e. ap (λ b. record s2 { graph_guard_condition = b }) e))
        ∙ (ap after_sub (
              destroy_lem s2.subscriber T.destroy_subscriber (λ u. record u { subscriber = false })
                s2 D.subscriber (λ e. ap (λ b. record s3 { subscriber = b }) e))
            ∙ ap last (
                destroy_lem s3.publisher T.destroy_publisher (λ u. record u { publisher = false })
                  s3 D.publisher (λ e. ap (λ b. record s4 { publisher = b }) e))))

pub graph_finalize-down :
    (T : SetupCalls) (s : Setup)
    → Destroys T
    → s.graph_initialized ≡ true
    → graph_finalize T s ≡ (Ret.ok, down T s)
unfolding graph_finalize
graph_finalize-down T s D i = rw (graph_finalize, i) (rw⁻¹ i (finalize_all-down T s D))
