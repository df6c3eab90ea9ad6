-- ===== src/WaitSet/Reports.antt =====
-- What a good call of RMW_Connext_WaitSet::wait has put into the arrays.
use rmw_connextdds.Prelude.{
  ℕ, ◌≡◌, ◌∙◌, ap, Bool, false, Bool-cases, inl, inr, List, Option, update_same, ltb,
}
use rmw_connextdds.Ret.{Ret, is_ok, is_ok→eq, Sat}
use rmw_connextdds.Endpoint.Sample.{Sample, Platform}
use rmw_connextdds.Endpoint.Loan.{Subscriber, loan_messages_if_needed}
use rmw_connextdds.Endpoint.Queue.{Documented}
use rmw_connextdds.Qos.Policies.{RosTime, Duration}
use rmw_connextdds.WaitSet.Protocol.{WaitSetState}
use rmw_connextdds.WaitSet.Conditions.{Dds, World}
use rmw_connextdds.WaitSet.Attach.{Heap, Arrays, array, set_state, attach, elements, refresh_attach}
use rmw_connextdds.WaitSet.Attached.{attach-attached}
use rmw_connextdds.WaitSet.Loops.{Unclaimed}
use rmw_connextdds.WaitSet.Refresh.{refresh_attach_iff}
use rmw_connextdds.WaitSet.Wait.{
  Program, Results, process_wait, wait_blocked, wait_acquired, wait_duration, wait, attached_count,
  results, is_waited, pointers,
}
use rmw_connextdds.WaitSet.WaitLaws.{Holds, process_wait-reports, remaining}

module _ (D : Dds) (have : Bool) (H : Heap) (ws : ℕ) (others : World D → World D) where
  attach_same :
      (a : Arrays) (w : World D)
      → refresh_attach (w.waitsets ws).attached a ≡ false
      → ((attach D have H others ws a w).1.waitsets ws).attached ≡ elements a
  unfolding attach
  attach_same a w r = rw r ((refresh_attach_iff (w.waitsets ws).attached a).0 r)

  -- After a good attach, the wait set lists the elements of the arrays, whether or not it did before.
  attach-elements :
      (a : Arrays) (w : World D)
      → Unclaimed D have H ws a w.conditions
      → Sat (λ v. (v.waitsets ws).attached ≡ elements a) (attach D have H others ws a w)
  attach-elements a w U o = elim (Bool-cases (refresh_attach (w.waitsets ws).attached a)) [
    | inl r ↦ (attach-attached D have H ws others a w U r o).0
    | inr r ↦ attach_same a w r
  ]

module _ (P : Platform) (C : Documented P)
    (loans : (s : Subscriber P) → (loan_messages_if_needed P s).0 ≡ Ret.ok) (D : Dds) (have : Bool)
    (H : Heap) (ws : ℕ) (others : World D → World D)
    (arrive : (ℕ → Subscriber P) → ℕ → Subscriber P) where
  -- The arrays hold exactly the elements with a sample in their queue, and null pointers for the
  -- others; the queues are as they were when the wait ended.
  pub record Shows (q : ℕ → List Sample) (a : Arrays) (r : Ret × Results × Program P D have H)
      : Type 0 where
    pub subscribers :
        r.1.subscribers ≡ remaining q (array a.subscribers) (pointers P D have H a.subscribers)
    pub clients :
        r.1.clients
        ≡ remaining
            (λ c. q (H.client_subscriber c))
            (array a.clients)
            (pointers P D have H a.clients)
    pub services :
        r.1.services
        ≡ remaining
            (λ s. q (H.service_subscriber s))
            (array a.services)
            (pointers P D have H a.services)
    pub kept : Holds P C q r.2.subscribers

  set_state-attached :
      (s : WaitSetState) (w : World D)
      → ((set_state D have H ws s w).waitsets ws).attached ≡ (w.waitsets ws).attached
  set_state-attached s w = ap (λ x. x.attached) (update_same w.waitsets ws _)

  wait_blocked-Shows :
      (a : Arrays) (t : Duration) (p : Program P D have H) (q : ℕ → List Sample)
      → (p.world.waitsets ws).attached ≡ elements a
      → Holds P C q (arrive p.subscribers)
      → (wait_blocked P D have H others arrive ws a t p).0 ≡ Ret.ok
      → Shows q a (wait_blocked P D have H others arrive ws a t p)
  unfolding wait_blocked
  wait_blocked-Shows a t p q l h o =
      let w1 = set_state D have H ws WaitSetState.blocked p.world in
      let (code, active, st) = D.wait ws t w1.dds in
      let w2 : World D = record w1 { dds = st } in
      let p3 : Program P D have H = record {
        world = set_state D have H ws WaitSetState.releasing w2;
        subscribers = arrive p.subscribers;
      } in
      let rs = results P D have H a in
      let r = process_wait P D have H ws active rs p3 in
      let R = process_wait-reports P C loans D have H ws active rs p3 q h in
      let l1 : (p3.world.waitsets ws).attached ≡ elements a =
        set_state-attached WaitSetState.releasing w2
        ∙ set_state-attached WaitSetState.blocked p.world
        ∙ l in
      elim (Bool-cases (is_waited code)) [
        | inr e ↦ absurd (let z = rw (e, wait_blocked) at o in cc)
        | inl e ↦ elim (Bool-cases (is_ok r.0)) [
          | inr f ↦ absurd (let z = rw (e, f, wait_blocked) at o in let y = ap is_ok z in cc)
          | inl f ↦
              rw (e, f, wait_blocked)
                (record {
                  subscribers =
                      R.subscribers ∙ ap (λ els. remaining q els.subscribers rs.subscribers) l1;
                  clients =
                      R.clients
                      ∙ ap
                          (λ els. remaining (λ c. q (H.client_subscriber c)) els.clients rs.clients)
                          l1;
                  services =
                      R.services
                      ∙ ap
                          (λ els.
                            remaining (λ s. q (H.service_subscriber s)) els.services rs.services)
                          l1;
                  kept = R.kept;
                })
        ]
      ]

  wait_acquired-Shows :
      (a : Arrays) (timeout : Option RosTime) (p : Program P D have H) (q : ℕ → List Sample)
      → Unclaimed D have H ws a p.world.conditions
      → Holds P C q (arrive p.subscribers)
      → (wait_acquired P D have H others arrive ws a timeout p).0 ≡ Ret.ok
      → Shows q a (wait_acquired P D have H others arrive ws a timeout p)
  unfolding wait_acquired
  wait_acquired-Shows a timeout p q U h o =
      let r = attach D have H others ws a p.world in
      let count = attached_count P D have H (r.1.waitsets ws).attached in
      let e = D.ensure_length count r.1.dds in
      let d = wait_duration P D have H others arrive timeout in
      elim (Bool-cases (is_ok r.0)) [
        | inr x ↦ absurd (let z = rw (x, wait_acquired) at o in let y = ap is_ok z in cc)
        | inl x ↦ elim (Bool-cases (ltb 2_147_483_647 count)) [
          | inl y ↦ absurd (let z = rw (x, y, wait_acquired) at o in cc)
          | inr y ↦ elim (Bool-cases e.0) [
            | inr u ↦ absurd (let z = rw (x, y, u, wait_acquired) at o in cc)
            | inl u ↦ elim (Bool-cases (is_ok d.0)) [
              | inr v ↦
                  absurd (let z = rw (x, y, u, v, wait_acquired) at o in let t = ap is_ok z in cc)
              | inl v ↦
                  let l = attach-elements D have H ws others a p.world U (is_ok→eq r.0 x) in
                  let k = rw (x, y, u, v, wait_acquired) at o in
                  rw (x, y, u, v, wait_acquired)
                    (wait_blocked-Shows a d.1
                      (record { world = record r.1 { dds = e.1 }; subscribers = p.subscribers }) q l
                      h k)
            ]
          ]
        ]
      ]

  -- When the wait set is free and no other one has the conditions of the elements, a call of wait
  -- that succeeds leaves in the arrays exactly those subscribers, clients and services whose queue
  -- holds a sample when DDS ends the wait, and takes no sample away. Subscribers are valid and their
  -- loans do not fail.
  pub wait-Shows :
      (a : Arrays) (timeout : Option RosTime) (p : Program P D have H) (q : ℕ → List Sample)
      → (p.world.waitsets ws).state ≡ WaitSetState.free
      → Unclaimed D have H ws a p.world.conditions
      → Holds P C q (arrive p.subscribers)
      → (wait P D have H others arrive ws a timeout p).0 ≡ Ret.ok
      → Shows q a (wait P D have H others arrive ws a timeout p)
  unfolding wait
  wait-Shows a timeout p q f U h o =
      rw (f, wait)
        (wait_acquired-Shows a timeout
          (record p { world = set_state D have H ws WaitSetState.acquiring p.world }) q U h
          (rw (f, wait) at o))
