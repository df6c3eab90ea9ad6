-- ===== src/WaitSet/Outcome.antt =====
-- How a call of RMW_Connext_WaitSet::wait ends.
use rmw_connextdds.Prelude.{
  ℕ, ◌≡◌, ◌≢◌, ◌⊎◌, inl, inr, refl, sym, ◌∙◌, ap, Bool, true, false, Bool-cases, Option,
  update_same, ltb, if◌then◌else◌,
}
use rmw_connextdds.Ret.{Ret, is_ok}
use rmw_connextdds.Endpoint.Sample.{Platform}
use rmw_connextdds.Endpoint.Loan.{Subscriber}
use rmw_connextdds.Qos.Policies.{RosTime, Duration}
use rmw_connextdds.WaitSet.Protocol.{WaitSetState}
use rmw_connextdds.WaitSet.Conditions.{Dds, World}
use rmw_connextdds.WaitSet.Attach.{Heap, Arrays, set_state, attach}
use rmw_connextdds.WaitSet.Detached.{no_elements, detach-Emptied}
use rmw_connextdds.WaitSet.Wait.{
  Program, Results, process_wait, clean_up, wait_blocked, wait_acquired, wait_duration, wait,
  attached_count, results, is_waited, is_timeout,
}

module _ (P : Platform) (D : Dds) (have : Bool) (H : Heap) (ws : ℕ) where
  -- The wait set is free again, and empty unless the call was good or timed out.
  pub record Settled (r : Ret × Results × Program P D have H) : Type 0 where
    pub free : (r.2.world.waitsets ws).state ≡ WaitSetState.free
    pub emptied :
        (r.0 ≡ Ret.ok) ⊎ (r.0 ≡ Ret.timeout) ⊎ ((r.2.world.waitsets ws).attached ≡ no_elements)

  clean_up-Settled :
      (rc : Ret) (rs : Results) (p : Program P D have H)
      → Settled (rc, rs, clean_up P D have H ws p)
  unfolding clean_up
  clean_up-Settled rc rs p =
      let w = set_state D have H ws WaitSetState.free p.world in
      let E = detach-Emptied D have H ws w in
      record {
        free = E.same_state ∙ ap (λ s. s.state) (update_same p.world.waitsets ws _);
        emptied = inr (inr E.elements);
      }

  module _ (others : World D → World D) (arrive : (ℕ → Subscriber P) → ℕ → Subscriber P) where
    ended-Settled :
        (b : Bool) (rs : Results) (p : Program P D have H)
        → Settled (
          if b then Ret.timeout else Ret.ok,
          rs,
          record p { world = set_state D have H ws WaitSetState.free p.world },
        )
    ended-Settled true rs p = record {
      free = ap (λ s. s.state) (update_same p.world.waitsets ws _);
      emptied = inr (inl refl);
    }
    ended-Settled false rs p = record {
      free = ap (λ s. s.state) (update_same p.world.waitsets ws _);
      emptied = inl refl;
    }

    wait_blocked-Settled :
        (a : Arrays) (t : Duration) (p : Program P D have H)
        → Settled (wait_blocked P D have H others arrive ws a t p)
    unfolding wait_blocked
    wait_blocked-Settled a t p =
        let w1 = set_state D have H ws WaitSetState.blocked p.world in
        let (code, active, st) = D.wait ws t w1.dds in
        let w2 : World D = record w1 { dds = st } in
        let p2 : Program P D have H = record { world = w2; subscribers = arrive p.subscribers } in
        let p3 : Program P D have H = record p2 {
          world = set_state D have H ws WaitSetState.releasing w2;
        } in
        let r = process_wait P D have H ws active (results P D have H a) p3 in
        elim (Bool-cases (is_waited code)) [
          | inr e ↦ rw e (clean_up-Settled Ret.error (results P D have H a) p2)
          | inl e ↦ elim (Bool-cases (is_ok r.0)) [
            | inr f ↦ rw (e, f) (clean_up-Settled r.0 r.1 r.3)
            | inl f ↦ rw (e, f) (ended-Settled (is_timeout code) r.1 r.3)
          ]
        ]

    wait_acquired-Settled :
        (a : Arrays) (timeout : Option RosTime) (p : Program P D have H)
        → Settled (wait_acquired P D have H others arrive ws a timeout p)
    unfolding wait_acquired
    wait_acquired-Settled a timeout p =
        let rs = results P D have H a in
        let r = attach D have H others ws a p.world in
        let p1 : Program P D have H = record p { world = r.1 } in
        let count = attached_count P D have H (r.1.waitsets ws).attached in
        let e = D.ensure_length count r.1.dds in
        let p2 : Program P D have H = record p1 { world = record r.1 { dds = e.1 } } in
        let d = wait_duration P D have H others arrive timeout in
        elim (Bool-cases (is_ok r.0)) [
          | inr x ↦ rw x (clean_up-Settled r.0 rs p1)
          | inl x ↦ elim (Bool-cases (ltb 2_147_483_647 count)) [
            | inl y ↦ rw (x, y) (clean_up-Settled Ret.error rs p1)
            | inr y ↦ elim (Bool-cases e.0) [
              | inr z ↦ rw (x, y, z) (clean_up-Settled Ret.error rs p2)
              | inl z ↦ elim (Bool-cases (is_ok d.0)) [
                | inr u ↦ rw (x, y, z, u) (clean_up-Settled d.0 rs p2)
                | inl u ↦ rw (x, y, z, u) (wait_blocked-Settled a d.1 p2)
              ]
            ]
          ]
        ]

    -- A call that found the wait set taken: it has done nothing, but that other threads went on
    -- while it waited for the end of an invalidation.
    pub record Refused (a : Arrays) (p : Program P D have H)
        (r : Ret × Results × Program P D have H) : Type 0 where
      pub error : r.0 ≡ Ret.error
      pub same : r.1 ≡ results P D have H a
      pub taken : (r.2.world.waitsets ws).state ≢ WaitSetState.free
      pub untouched :
          (r.2 ≡ p)
          ⊎ (((p.world.waitsets ws).state ≡ WaitSetState.invalidating)
              × (r.2 ≡ record p { world = others p.world }))

    refused :
        (a : Arrays) (p q : Program P D have H) (s : WaitSetState)
        → (q.world.waitsets ws).state ≡ s
        → s ≢ WaitSetState.free
        → (q ≡ p)
          ⊎ (((p.world.waitsets ws).state ≡ WaitSetState.invalidating)
              × (q ≡ record p { world = others p.world }))
        → Refused a p (Ret.error, results P D have H a, q)
    refused a p q s e n u = record {
      error = refl;
      same = refl;
      taken = λ z. n (sym e ∙ z);
      untouched = u;
    }

    -- The wait set was free when the call came, or when another thread had ended its invalidation.
    abbrev pub WasFree : Program P D have H → Type 0
    WasFree p =
        ((p.world.waitsets ws).state ≡ WaitSetState.free)
        ⊎ (((p.world.waitsets ws).state ≡ WaitSetState.invalidating)
            × (((others p.world).waitsets ws).state ≡ WaitSetState.free))

    abbrev Ends : Arrays → Program P D have H → Ret × Results × Program P D have H → Type 0
    Ends a p r = (WasFree p × Settled r) ⊎ Refused a p r

    -- The two looks at the state.
    wait_woken :
        (a : Arrays) (timeout : Option RosTime) (p : Program P D have H) (s : WaitSetState)
        → (p.world.waitsets ws).state ≡ WaitSetState.invalidating
        → ((others p.world).waitsets ws).state ≡ s
        → Ends a p (wait P D have H others arrive ws a timeout p)
    unfolding wait
    wait_woken a timeout p WaitSetState.free i e =
        rw (i, e, wait) (inl (inr (refl, refl), wait_acquired-Settled a timeout _))
    wait_woken a timeout p WaitSetState.acquiring i e =
        rw (i, e, wait) (inr (refused a p _ _ e (cc) (inr (i, refl))))
    wait_woken a timeout p WaitSetState.blocked i e =
        rw (i, e, wait) (inr (refused a p _ _ e (cc) (inr (i, refl))))
    wait_woken a timeout p WaitSetState.releasing i e =
        rw (i, e, wait) (inr (refused a p _ _ e (cc) (inr (i, refl))))
    wait_woken a timeout p WaitSetState.invalidating i e =
        rw (i, e, wait) (inr (refused a p _ _ e (cc) (inr (i, refl))))

    wait_entered :
        (a : Arrays) (timeout : Option RosTime) (p : Program P D have H) (s : WaitSetState)
        → (p.world.waitsets ws).state ≡ s
        → Ends a p (wait P D have H others arrive ws a timeout p)
    unfolding wait
    wait_entered a timeout p WaitSetState.free e =
        rw (e, wait) (inl (inl refl, wait_acquired-Settled a timeout _))
    wait_entered a timeout p WaitSetState.invalidating e = wait_woken a timeout p _ e refl
    wait_entered a timeout p WaitSetState.acquiring e =
        rw (e, wait) (inr (refused a p p _ e (cc) (inl refl)))
    wait_entered a timeout p WaitSetState.blocked e =
        rw (e, wait) (inr (refused a p p _ e (cc) (inl refl)))
    wait_entered a timeout p WaitSetState.releasing e =
        rw (e, wait) (inr (refused a p p _ e (cc) (inl refl)))

    -- A call of wait ends in one of two ways. Either the wait set was free when the call came, or once
    -- another thread's invalidation had ended, and then it is free again at the end, with no element
    -- attached unless the result is good or a timeout; or the call found the wait set taken, returns an
    -- error, and has changed nothing.
    pub wait_lem :
        (a : Arrays) (timeout : Option RosTime) (p : Program P D have H)
        → (WasFree p × Settled (wait P D have H others arrive ws a timeout p))
          ⊎ Refused a p (wait P D have H others arrive ws a timeout p)
    wait_lem a timeout p = wait_entered a timeout p _ refl
