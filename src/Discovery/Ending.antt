-- ===== src/Discovery/Ending.antt =====
-- How the discovery thread ends, and what its stop leaves.
use rmw_connextdds.Prelude.{
  ◌≡◌, refl, sym, ◌∙◌, ap, Bool, true, false, ◌&&◌, ◌||◌, not, inl, inr, Bool-cases, List, [], ◌∷◌,
  none, some, Option-cases,
}
use rmw_connextdds.Ret.{Ret}
use rmw_connextdds.Graph.Cache.{GraphCache, Context}
use rmw_connextdds.Discovery.Samples.{Learning}
use rmw_connextdds.Discovery.Thread.{
  Attached, with_waitset, ThreadCalls, attach_conditions, detach_one, clean, Round, should_exit,
  process, round, main_loop, discovery_thread, Listener, ListenerCalls, discovery_thread_start,
  discovery_thread_stop,
}

-- Every condition can be detached.
pub record Detaches (T : ThreadCalls) : Type 0 where
  pub exit : T.detach_exit ≡ true
  pub partinfo : T.detach_partinfo ≡ true
  pub dcps_part : T.detach_participants ≡ true
  pub dcps_sub : T.detach_subscriptions ≡ true
  pub dcps_pub : T.detach_publications ≡ true

detach_one_lem :
    (b d : Bool) (unmark : Attached → Attached) (a : Attached)
    → d ≡ true
    → (b ≡ false → a ≡ unmark a)
    → detach_one b d unmark a ≡ (true, unmark a)
detach_one_lem true d unmark a e h = rw e refl
detach_one_lem false d unmark a e h = ap (λ s. (true, s)) (h refl)

clean-all : (T : ThreadCalls) (a : Attached) → Detaches T → (clean T a).1 ≡ with_waitset false
unfolding clean
clean-all T a D =
    let a1 : Attached = record a { exit = false } in
    let a2 : Attached = record a1 { partinfo = false } in
    let a3 : Attached = record a2 { dcps_part = false } in
    let a4 : Attached = record a3 { dcps_sub = false } in
    simp
      (
        clean,
        detach_one_lem a.exit T.detach_exit (λ s. record s { exit = false }) a D.exit
            (λ e. ap (λ b. record a1 { exit = b }) e),
        detach_one_lem a1.partinfo T.detach_partinfo (λ s. record s { partinfo = false }) a1
            D.partinfo (λ e. ap (λ b. record a2 { partinfo = b }) e),
        detach_one_lem a2.dcps_part T.detach_participants (λ s. record s { dcps_part = false }) a2
            D.dcps_part (λ e. ap (λ b. record a3 { dcps_part = b }) e),
        detach_one_lem a3.dcps_sub T.detach_subscriptions (λ s. record s { dcps_sub = false }) a3
            D.dcps_sub (λ e. ap (λ b. record a4 { dcps_sub = b }) e),
        detach_one_lem a4.dcps_pub T.detach_publications (λ s. record s { dcps_pub = false }) a4
            D.dcps_pub (λ e. ap (λ b. record a4 { dcps_pub = b }) e),
      )
      refl

and_false : (b : Bool) → (b && false) ≡ false
and_false true = refl
and_false false = refl

module _ (C : GraphCache) (L : Learning C) where
  -- A round after which the thread has to end.
  abbrev pub stops : Round C L → Bool
  stops r = elim r.active_conditions [
    | none ↦ true
    | some cs ↦ should_exit C L cs || not r.thread_is_running
  ]

  abbrev pub one_stops : List (Round C L) → Bool
  one_stops [] = false
  one_stops (r ∷ rs) = stops r || one_stops rs

  round-stops : (r : Round C L) (ctx : Context C) → stops r ≡ true → (round C L r ctx).0 ≡ false
  unfolding round
  round-stops r ctx e = elim (Option-cases r.active_conditions) [
    | inl n ↦ rw (round, n) refl
    | inr (cs, n) ↦ elim (Bool-cases (should_exit C L cs)) [
      | inl x ↦ rw (round, n, x) refl
      | inr x ↦
          let y : r.thread_is_running ≡ false = elim (Bool-cases r.thread_is_running) [
            | inr f ↦ f
            | inl f ↦ absurd (let z : false ≡ true = rw (n, x, f) at e in cc)
          ] in
          rw (round, n, x, y) (and_false (process C L cs ctx).0)
    ]
  ]

  main_loop-inactive :
      (rs : List (Round C L)) (ctx : Context C) → main_loop C L false rs ctx ≡ (true, ctx)
  unfolding main_loop
  main_loop-inactive [] ctx = refl
  main_loop-inactive (r ∷ rs) ctx = refl

  main_loop-ends :
      (active : Bool) (rs : List (Round C L)) (ctx : Context C)
      → (one_stops rs || not active) ≡ true
      → (main_loop C L active rs ctx).0 ≡ true
  unfolding main_loop
  main_loop-ends false rs ctx e = ap (λ z. z.0) (main_loop-inactive rs ctx)
  main_loop-ends true [] ctx e = absurd cc
  main_loop-ends true (r ∷ rs) ctx e = elim (Bool-cases (stops r)) [
    | inl x ↦ rw (round-stops r ctx x) (ap (λ z. z.0) (main_loop-inactive rs (round C L r ctx).1))
    | inr x ↦ elim (Bool-cases (round C L r ctx).0) [
      | inr y ↦ rw y (ap (λ z. z.0) (main_loop-inactive rs (round C L r ctx).1))
      | inl y ↦ rw y (main_loop-ends true rs (round C L r ctx).1 (rw x at e))
    ]
  ]

  -- The discovery thread returns when it finds `thread_is_running` unset at its start or at the end of
  -- a round, or a round's wait fails or reports the exit condition; and then, where conditions can be
  -- detached, its wait set is deleted with nothing attached.
  pub discovery_thread-ends :
      (T : ThreadCalls) (active : Bool) (rounds : List (Round C L)) (ctx : Context C)
      → Detaches T
      → (one_stops rounds || not active) ≡ true
      → ((discovery_thread C L T active rounds ctx).0 ≡ true)
        × ((discovery_thread C L T active rounds ctx).1 ≡ with_waitset false)
  unfolding discovery_thread
  discovery_thread-ends T active rounds ctx D e =
      let x = main_loop-ends active rounds ctx e in
      let a = attach_conditions T (with_waitset true) in
      elim (Bool-cases T.new_waitset) [
        | inr n ↦ simp (discovery_thread, n) (refl, refl)
        | inl n ↦ elim (Bool-cases a.0) [
          | inr b ↦ simp (discovery_thread, n, b) (refl, clean-all T a.1 D)
          | inl b ↦ simp (discovery_thread, n, b, x) (refl, clean-all T a.1 D)
        ]
      ]

-- A thread that was started, or could not be, is stopped again: the result is good, and nothing of
-- the start is left, where no thread was there before, the thread can be woken and joined and its
-- condition be destroyed.
pub discovery_thread_stop-start :
    (S T : ListenerCalls) (l : Listener)
    → l.thread_is_running ≡ false
    → l.listener_thread ≡ false
    → T.trigger_guard_condition ≡ Ret.ok
    → T.join ≡ true
    → T.destroy_guard_condition ≡ Ret.ok
    → S.destroy_guard_condition ≡ Ret.ok
    → discovery_thread_stop T (discovery_thread_start S l).1
      ≡ (Ret.ok, record l { listener_thread_gc = false })
unfolding discovery_thread_start discovery_thread_stop
discovery_thread_stop-start S T l r t g j d s = elim (Bool-cases S.create_guard_condition) [
  | inr a ↦ simp (discovery_thread_start, discovery_thread_stop, a, r) refl
  | inl a ↦ elim (Bool-cases S.create_thread) [
    | inr b ↦
        simp (discovery_thread_start, discovery_thread_stop, a, b, s)
          (ap (λ x. (Ret.ok, record l { listener_thread_gc = false; thread_is_running = x }))
            (sym r))
    | inl b ↦
        simp (discovery_thread_start, discovery_thread_stop, a, b, g, j, d)
          (ap
              (λ x. (
                Ret.ok,
                record l {
                  listener_thread_gc = false;
                  thread_is_running = x;
                  listener_thread = false;
                },
              ))
              (sym r)
            ∙ ap (λ x. (Ret.ok, record l { listener_thread_gc = false; listener_thread = x }))
                (sym t))
  ]
]
